-- ===== src/Lines/Lcd/Display.antt =====
-- What a 1602C display reads from its pins while LKM/GPIO_LCD/LKM_lcd.c drives them. The display is
-- not part of the repository: it is documented to read Register Select and the data pins when
-- Enable falls, if R/W is low; with R/W high it drives the data pins itself.
use linux_kernel_modules.Base.{
  ℕ, zero, suc, ◌+◌, ◌*◌, ◌<◌, ◌≡◌, refl, ap, ap₂, ◌∙◌, Bool, true, Bool-cases, inl, inr, ◌&&◌,
  List, [], ◌∷◌, ◌++◌, ◌==◌, ==_iff, if◌then◌else◌, length, take, min, map, arith,
}
use linux_kernel_modules.UserCopy.{take-copied_in}
use linux_kernel_modules.Lines.Lcd.{
  Level, bit_of, lcd_instruction, lcd_data, write_chars, driver_write, buf_size,
}

-- The levels of the lines.
abbrev pub Pins : Type 0
Pins = ℕ → ℕ

abbrev pub put : Level → Pins → Pins
put l f p = if p == l.pin then l.value else f p

abbrev pub apply : List Level → Pins → Pins
apply [] f = f
apply (l ∷ ls) f = apply ls (put l f)

-- The byte on D0 to D7.
abbrev pub byte_on : Pins → ℕ
byte_on f = f 46 + 2 * f 23 + 4 * f 26 + 8 * f 45 + 16 * f 44 + 32 * f 69 + 64 * f 68 + 128 * f 66

-- What the display reads, in order: Register Select (0 for an instruction, 1 for a character), and
-- the byte.
pub record Received : Type 0 where
  pub register_select : ℕ
  pub byte : ℕ

abbrev pub received : ℕ → ℕ → Received
received rs b = record { register_select = rs; byte = b }

abbrev pub falls : Level → Pins → Bool
falls l f = (l.pin == 47) && (l.value == 0) && (f 47 == 1) && (f 65 == 0)

unfoldable pub display : List Level → Pins → List Received
display [] f = []
display (l ∷ ls) f =
    let rest = display ls (put l f) in
    if falls l f then received (f 27) (byte_on f) ∷ rest else rest

-- The eight bits of a byte, put together again.
abbrev joined : ℕ → ℕ
joined b =
    bit_of b 0
    + 2 * bit_of b 1
    + 4 * bit_of b 2
    + 8 * bit_of b 3
    + 16 * bit_of b 4
    + 32 * bit_of b 5
    + 64 * bit_of b 6
    + 128 * bit_of b 7

-- Whether the bytes below a limit come out whole; by evaluation for all bytes.
whole_up_to : ℕ → Bool
whole_up_to zero = true
whole_up_to (suc limit) = (joined limit == limit) && whole_up_to limit

bytes_whole : whole_up_to 256 ≡ true
unfolding whole_up_to
bytes_whole = refl

joined-below : (limit byte : ℕ) → byte < limit → whole_up_to limit ≡ true → joined byte ≡ byte
unfolding whole_up_to
joined-below zero byte below whole = absurd (omega arith)
joined-below (suc limit) byte below whole = elim (Bool-cases (byte == limit)) [
  | inl here ↦
      let same : byte ≡ limit = (==_iff byte limit).0 here in
      rw same ((==_iff (joined limit) limit).0 (ground arith))
  | inr lower ↦ joined-below limit byte (ground arith) (ground arith)
]

joined_lem : (b : ℕ) → b < 256 → joined b ≡ b
joined_lem b h = joined-below 256 b h bytes_whole

display_data :
    (b : ℕ) (ls : List Level) (f : Pins)
    → f 65 ≡ 0
    → display (lcd_data b ++ ls) f ≡ received 1 (joined b) ∷ display ls (apply (lcd_data b) f)
unfolding display lcd_data
display_data b ls f low = rw low refl

display_instruction :
    (b : ℕ) (ls : List Level) (f : Pins)
    → f 65 ≡ 0
    → display (lcd_instruction b ++ ls) f
      ≡ received 0 (joined b) ∷ display ls (apply (lcd_instruction b) f)
unfolding display lcd_instruction
display_instruction b ls f low = rw low refl

abbrev pub AllBytes : List ℕ → Type 0
AllBytes [] = Unit {0}
AllBytes (x ∷ xs) = (x < 256) × AllBytes xs

display-write_chars :
    (cs : List ℕ) (f : Pins)
    → AllBytes cs
    → f 65 ≡ 0
    → (display (write_chars cs) f ≡ map (received 1) cs) × (apply (write_chars cs) f 65 ≡ 0)
unfolding write_chars display lcd_data
display-write_chars [] f h low = (refl, low)
display-write_chars (c ∷ cs) f h low =
    let rest = display-write_chars cs (apply (lcd_data c) f) h.1 low in
    (
      display_data c (write_chars cs) f low
          ∙ ap₂ (λ b others. received 1 b ∷ others) (joined_lem c h.0) rest.0,
      rest.1,
    )

AllBytes-take : (n : ℕ) (xs : List ℕ) → AllBytes xs → AllBytes (take n xs)
AllBytes-take zero xs h = tt
AllBytes-take (suc n) [] h = tt
AllBytes-take (suc n) (x ∷ xs) h = (h.0, AllBytes-take n xs h.1)

-- A write of bytes that can be read, with the R/W line low, as the load leaves it, and the other lines
-- at any levels: the display reads the instruction that clears it and then the first 17 bytes as
-- characters, in order, and nothing else; the number of these bytes is returned, and R/W is low
-- behind it.
pub display-driver_write :
    (src lcd_buffer : List ℕ) (f : Pins)
    → f 65 ≡ 0
    → AllBytes src
    → let w = driver_write 0 src lcd_buffer in
      (display w.levels f ≡ received 0 1 ∷ map (received 1) (take (min (length src) buf_size) src))
      × (w.ret ≡ min (length src) buf_size)
      × (apply w.levels f 65 ≡ 0)
unfolding driver_write lcd_instruction
display-driver_write src lcd_buffer f low h =
    let n : ℕ = min (length src) buf_size in
    let cleared : Pins = apply (lcd_instruction 1) f in
    let stored = take-copied_in n n 0 src lcd_buffer (omega arith) (omega arith) in
    let chars = display-write_chars (take n src) cleared (AllBytes-take n src h) low in
    (
      display_instruction 1 _ f low
          ∙ ap (λ rest. received 0 1 ∷ rest)
              (ap (λ cs. display (write_chars cs) cleared) stored ∙ chars.0),
      omega arith,
      ap (λ cs. apply (write_chars cs) cleared 65) stored ∙ chars.1,
    )
