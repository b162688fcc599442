-- ===== src/CharDev/Thermometer.antt =====
-- `read_temperature` and `driver_read` of LKM/i2c_MCP9801/i2c_MCP9801.c, whose text
-- LKM/i2c_24LC256/i2c_24LC256.c repeats.
use linux_kernel_modules.Base.{
  ℕ, zero, suc, ◌-◌, ◌<◌, ◌≤◌, ◌≡◌, refl, Option, none, some, List, [], ◌∷◌, ◌++◌, ◌==◌,
  if◌then◌else◌, length, take, min, false, pos, arith,
}
use linux_kernel_modules.Text.{digits, decimal, written}
use linux_kernel_modules.Text.Decimal.{take-long}

-- `sensor`: the answer of `i2c_smbus_read_byte_data`, which goes unused.
abbrev pub read_temperature : (sensor : ℕ) → ℕ
read_temperature sensor = 25

-- `driver_read`: the bytes that reach the user, and the return value. `junk`: what `out_string` holds
-- behind its text, the NUL and whatever was on the stack. The offset is not used.
unfoldable pub driver_read : (sensor : ℕ) (junk : List ℕ) (not_copied count : ℕ) → List ℕ × ℕ
driver_read sensor junk not_copied count =
    let to_copy = min count 20 in
    let text = decimal (pos (read_temperature sensor)) (10 ∷ []) in
    (take (to_copy - not_copied) (written 20 text ++ junk), to_copy - not_copied)

-- i2c_24LC256.c.
abbrev pub eeprom_read : (sensor : ℕ) (junk : List ℕ) (not_copied count : ℕ) → List ℕ × ℕ
eeprom_read = driver_read

-- A client that reads until a read returns 0; `none`: `fuel` reads were not enough.
unfoldable pub read_to_end : (fuel count : ℕ) (sensor : ℕ → ℕ) → List ℕ → Option (List ℕ)
read_to_end zero count sensor junk = none
read_to_end (suc fuel) count sensor junk =
    let r = driver_read (sensor fuel) junk 0 count in
    let rest = read_to_end fuel count sensor junk in
    if r.1 == 0 then some [] else elim rest [ none ↦ none | some out ↦ some (r.0 ++ out) ]

-- Whatever the sensor measures, a read of 20 bytes or more gets "25", a newline and the 17 bytes
-- behind them, of which `snprintf` has set the first alone.
pub driver_read_leaks_stack :
    (sensor count : ℕ) (junk : List ℕ)
    → 20 ≤ count
    → length junk ≡ 17
    → driver_read sensor junk 0 count ≡ (50 ∷ 53 ∷ 10 ∷ junk, 20)
unfolding driver_read decimal digits
driver_read_leaks_stack sensor count junk h l =
    let whole : min count 20 - 0 ≡ 20 = omega arith in
    rw (whole, take-long 17 junk (omega arith)) refl

-- The file has no end: a client that reads until a read returns 0 never stops.
pub read_to_end-none :
    (fuel count : ℕ) (sensor : ℕ → ℕ) (junk : List ℕ)
    → 0 < count
    → read_to_end fuel count sensor junk ≡ none
unfolding read_to_end driver_read
read_to_end-none zero count sensor junk h = refl
read_to_end-none (suc fuel) count sensor junk h =
    let more : ((min count 20 - 0) == 0) ≡ false = ground arith in
    rw (more, read_to_end-none fuel count sensor junk h) refl
