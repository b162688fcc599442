-- ===== src/Tests/Parts.antt =====
-- The theorems on the monster, the benchmark, the LCD and the simple character devices, and
-- the pages, at concrete inputs.
use linux_kernel_modules.Base.{ℕ, ◌≡◌, refl, false, some, List, [], ◌∷◌, arith, pos, replicate}
use linux_kernel_modules.Crypto.Sampling.{Ctx, Sample}
use linux_kernel_modules.Lines.Lcd
use linux_kernel_modules.Lines.Lcd.Display.{display, apply, received, display-driver_write}
use linux_kernel_modules.CharDev.Sleepy.{Op, read, write}
use linux_kernel_modules.CharDev.Leaky
use linux_kernel_modules.CharDev.Leaky.{dev_read, dev_write, read-write_leaks}

-- 6000 operations in the run; one core grows 1 degree hotter.
abbrev first : Sample
first = record { ops = 0; temp = pos 40000 ∷ pos 40000 ∷ pos 40000 ∷ pos 40000 ∷ [] }

abbrev last : Sample
last = record { ops = 6000; temp = pos 41000 ∷ pos 40000 ∷ pos 39000 ∷ pos 40000 ∷ [] }

abbrev benchmark : Ctx
benchmark = record { samples = first ∷ last ∷ []; invalid = false }

abbrev text : List ℕ
text = b'h' ∷ b'i' ∷ []

display-driver_write_example :
    (display (Lcd.driver_write 0 text (replicate 17 0)).levels (λ p. 0)
      ≡ received 0 1 ∷ received 1 b'h' ∷ received 1 b'i' ∷ [])
    × ((Lcd.driver_write 0 text (replicate 17 0)).ret ≡ 2)
    × (apply (Lcd.driver_write 0 text (replicate 17 0)).levels (λ p. 0) 65 ≡ 0)
display-driver_write_example =
    display-driver_write text (replicate 17 0) (λ p. 0) refl (omega arith, (omega arith, tt))

abbrev calls : List Op
calls = read ∷ write 5 ∷ write 1 ∷ read ∷ read ∷ []

-- A buffer with a secret in it.
abbrev secret : Leaky.Device
secret = record { buffer = some (b'k' ∷ b'e' ∷ b'y' ∷ []); buffer_size = 3 }
