-- ===== src/Lines/Lcd.antt =====
-- LKM/GPIO_LCD/LKM_lcd.c: what is sent to the LCD's pins, and the registrations of its module.
pub mod Display
pub mod Load
use linux_kernel_modules.Base.{
  ℕ, zero, suc, ◌+◌, ◌-◌, ◌/◌, ◌^◌, bit_and, List, [], ◌∷◌, ◌++◌, length, take, get_or, min,
  replicate,
}
use linux_kernel_modules.UserCopy.{copied_in}

-- Register Select, R/W, Enable, D0 to D7.
abbrev pub gpios : List ℕ
gpios = 27 ∷ 65 ∷ 47 ∷ 46 ∷ 23 ∷ 26 ∷ 45 ∷ 44 ∷ 69 ∷ 68 ∷ 66 ∷ []

-- A call `gpio_set_value(pin, value)`.
pub record Level : Type 0 where
  pub pin : ℕ
  pub value : ℕ

abbrev pub gpio_set_value : ℕ → ℕ → Level
gpio_set_value pin value = record { pin = pin; value = value }

abbrev pub pin_of : ℕ → ℕ
pin_of i = get_or gpios i 0

-- The sleeps of `lcd_enable` and `lcd_send_byte` are left out.
unfoldable pub lcd_enable : List Level
lcd_enable = gpio_set_value (pin_of 2) 1 ∷ gpio_set_value (pin_of 2) 0 ∷ []

-- `(data & (1 << i)) >> i`.
abbrev pub bit_of : ℕ → ℕ → ℕ
bit_of byte i = bit_and byte (2 ^ i) / 2 ^ i

-- The loop of `lcd_send_byte` from `i` on, `left` being `8 - i`.
unfoldable pub send_bits : (left i byte : ℕ) → List Level
send_bits zero i byte = []
send_bits (suc left) i byte =
    gpio_set_value (pin_of (3 + i)) (bit_of byte i) ∷ send_bits left (i + 1) byte

unfoldable pub lcd_send_byte : ℕ → List Level
unfolding send_bits lcd_enable
lcd_send_byte byte = send_bits 8 0 byte ++ lcd_enable

unfoldable pub lcd_instruction : ℕ → List Level
unfolding lcd_send_byte
lcd_instruction byte = gpio_set_value (pin_of 0) 0 ∷ lcd_send_byte byte

unfoldable pub lcd_data : ℕ → List Level
unfolding lcd_send_byte
lcd_data byte = gpio_set_value (pin_of 0) 1 ∷ lcd_send_byte byte

-- The loop of `driver_write` over the characters of `lcd_buffer`.
unfoldable pub write_chars : List ℕ → List Level
unfolding lcd_data
write_chars [] = []
write_chars (c ∷ cs) = lcd_data c ++ write_chars cs

-- `sizeof(lcd_buffer)`.
abbrev pub buf_size : ℕ
buf_size = 17

-- What a write leaves: `lcd_buffer`, the levels set, in order, and the return value.
pub record Written : Type 0 where
  pub lcd_buffer : List ℕ
  pub levels : List Level
  pub ret : ℕ

unfoldable pub driver_write : (not_copied : ℕ) → List ℕ → List ℕ → Written
unfolding lcd_instruction write_chars
driver_write not_copied src lcd_buffer =
    let to_copy = min (length src) buf_size in
    let buffer = copied_in to_copy not_copied src lcd_buffer in
    record {
      lcd_buffer = buffer;
      levels = lcd_instruction 1 ++ write_chars (take to_copy buffer);
      ret = to_copy - not_copied;
    }

-- The end of `ModuleInit`: 8 bits, display and blinking cursor on, clear, and a `7`.
unfoldable pub init_screen : List Level
unfolding lcd_instruction lcd_data
init_screen =
    lcd_instruction 0x30 ++ (lcd_instruction 0xf ++ (lcd_instruction 0x1 ++ lcd_data b'7'))
