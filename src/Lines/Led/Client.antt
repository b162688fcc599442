-- ===== src/Lines/Led/Client.antt =====
-- A client of LKM/GPIO/LKM_gpio.c that writes a text, as `echo 1 > /dev/...` does: it calls write(2)
-- with what is left until nothing is, as each call takes as many bytes as it returns.
use linux_kernel_modules.Base.{
  ℕ, zero, suc, ◌<◌, ◌≡◌, refl, Option, none, some, List, [], ◌∷◌, drop, length, arith,
}
use linux_kernel_modules.Lines.Led.{driver_write, level_of}

-- The level of the line behind a write.
abbrev pub driven : Option ℕ → ℕ → ℕ
driven none level = level
driven (some new) level = new

-- The level at the end; `none`: `fuel` calls were not enough. The memory of the client can be read.
unfoldable pub write_all : (fuel uninitialised level : ℕ) → List ℕ → Option ℕ
write_all fuel uninitialised level [] = some level
write_all zero uninitialised level (c ∷ src) = none
write_all (suc fuel) uninitialised level (c ∷ src) =
    let (set, taken) = driver_write uninitialised 0 (c ∷ src) in
    write_all fuel uninitialised (driven set level) (drop taken (c ∷ src))

-- The last `0` or `1` of a text decides, and without one nothing changes.
unfoldable pub last_level : ℕ → List ℕ → ℕ
last_level level [] = level
last_level level (c ∷ src) = last_level (driven (level_of c) level) src

-- A client that writes a text needs no more calls than it has bytes, and leaves the LED as the last
-- `0` or `1` of the text says, or as it was.
pub write_all-last_level :
    (text : List ℕ) (fuel uninitialised level : ℕ)
    → length text < suc fuel
    → write_all fuel uninitialised level text ≡ some (last_level level text)
unfolding write_all last_level driver_write
write_all-last_level [] zero u level h = refl
write_all-last_level [] (suc fuel) u level h = refl
write_all-last_level (c ∷ text) zero u level h = absurd (omega arith)
write_all-last_level (c ∷ text) (suc fuel) u level h =
    write_all-last_level text fuel u (driven (level_of c) level) (omega arith)
