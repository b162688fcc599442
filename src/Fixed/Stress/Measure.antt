-- ===== src/Fixed/Stress/Measure.antt =====
-- What is left to do of LKM/mutex_sleep_ioctl_exercise/stress_test.c on the fixed device: every step
-- of its threads uses some of it up.
use linux_kernel_modules.Base.{
  ℕ, suc, ◌+◌, ◌-◌, ◌*◌, ◌≤◌, ◌<◌, ◌≡◌, refl, ap, ◌∙◌, Bool, true, false, List, [], ◌∷◌, ◌++◌, map,
  length, arith, length-append,
}
use linux_kernel_modules.Fixed.Device.{Device, Enter, go, sleep, interrupted, read_enter, my_write}
use linux_kernel_modules.Fixed.Stress.Program.{
  Writer, Phase, idle, asleep, woken, through, Reader, Control, System, entered, looked, rouse,
  rouse_phase, Step, write, wake, begin, look, take, mode, wipe, start, Run, here, next, message_of,
}

unfoldable pub total {ℓ} : {A : Type ℓ} → (A → ℕ) → List A → ℕ
total f [] = 0
total f (x ∷ xs) = f x + total f xs

pub total-at {ℓ} :
    {A : Type ℓ} (f : A → ℕ) (before after : List A) (x : A)
    → total f (before ++ x ∷ after) ≡ total f before + f x + total f after
unfolding total
total-at f [] after x = omega arith
total-at f (y ∷ before) after x = omega (arith, total-at f before after x)

length-at {ℓ} :
    {A : Type ℓ} (before after : List A) (x : A)
    → length (before ++ x ∷ after) ≡ length before + suc (length after)
length-at before after x = length-append before (x ∷ after)

-- What is left to do, in steps: a write leads to a wake-up, which may make each of the four readers
-- look again.
abbrev pub if_so : Bool → ℕ → ℕ
if_so true n = n
if_so false n = 0

abbrev pub phase_weight : Phase → ℕ
phase_weight idle = 0
phase_weight asleep = 1
phase_weight woken = 2
phase_weight (through blocking) = 1

abbrev pub writer_weight : Writer → ℕ
writer_weight w = 6 * w.rounds + if_so w.waking 5

abbrev pub reader_weight : Reader → ℕ
reader_weight r = 4 * r.rounds + phase_weight r.phase

abbrev pub control_weight : Control → ℕ
control_weight c = 2 * c.rounds + if_so c.resetting 1

unfoldable pub weight : System → ℕ
unfolding total
weight s = total writer_weight s.writers + total reader_weight s.readers + control_weight s.control

if_so-le : (b : Bool) (n : ℕ) → if_so b n ≤ n
if_so-le true n = omega arith
if_so-le false n = omega arith

entered-le : (e : Enter) → phase_weight (entered e) ≤ 1
entered-le (go blocking) = omega arith
entered-le sleep = omega arith
entered-le interrupted = omega arith

looked-le : (d : Device) → phase_weight (looked d) ≤ 1
looked-le d = ground arith

rouse_phase-le : (p : Phase) → phase_weight (rouse_phase p) ≤ phase_weight p + 1
rouse_phase-le idle = omega arith
rouse_phase-le asleep = omega arith
rouse_phase-le woken = omega arith
rouse_phase-le (through blocking) = omega arith

total-rouse :
    (rs : List Reader) → total reader_weight (map rouse rs) ≤ total reader_weight rs + length rs
unfolding total
total-rouse [] = omega arith
total-rouse (r ∷ rs) = omega (arith, rouse_phase-le r.phase, total-rouse rs)

length-rouse : (rs : List Reader) → length (map rouse rs) ≡ length rs
length-rouse [] = refl
length-rouse (r ∷ rs) = ap suc (length-rouse rs)

-- A list in which one entry is replaced.
pub replaced {ℓ} :
    {A : Type ℓ} (f : A → ℕ) (before after : List A) (x y : A) (xs : List A)
    → xs ≡ before ++ x ∷ after
    → total f (before ++ y ∷ after) + f x ≡ total f xs + f y
replaced f before after x y xs e =
    omega (arith, ap (total f) e, total-at f before after x, total-at f before after y)

same_length {ℓ} :
    {A : Type ℓ} (before after : List A) (x y : A) (xs : List A)
    → xs ≡ before ++ x ∷ after
    → length (before ++ y ∷ after) ≡ length xs
same_length before after x y xs e =
    omega (arith, ap length e, length-at before after x, length-at before after y)

Step-length : {s t : System} → Step s t → length t.readers ≡ length s.readers
Step-length {s} (write before after w e n r) = refl
Step-length {s} (wake before after w e p) = length-rouse s.readers
Step-length {s} (begin before after r e p l) = same_length before after r _ s.readers e
Step-length {s} (look before after r e p) = same_length before after r _ s.readers e
Step-length {s} (take before after r b e p) = same_length before after r _ s.readers e
Step-length {s} (mode m also lt n l) = refl
Step-length {s} (wipe y) = refl

Step-weight : {s t : System} → Step s t → length s.readers ≤ 4 → weight t < weight s
unfolding weight
Step-weight {s} (write before after w e n l) four = omega (
  arith,
  replaced writer_weight before after w
      (record w { rounds = w.rounds - 1; waking = (my_write false 0 (message_of w) s.dev).wake })
      s.writers e,
  if_so-le (my_write false 0 (message_of w) s.dev).wake 5,
)
Step-weight {s} (wake before after w e p) four = omega (
  arith,
  replaced writer_weight before after w (record w { waking = false }) s.writers e,
  ap (λ b. if_so b 5) p,
  total-rouse s.readers,
)
Step-weight {s} (begin before after r e p l) four =
    let r' : Reader = record { rounds = r.rounds - 1; phase = entered (read_enter false s.dev) } in
    omega (
      arith,
      replaced reader_weight before after r r' s.readers e,
      entered-le (read_enter false s.dev),
    )
Step-weight {s} (look before after r e p) four =
    let r' : Reader = record r { phase = looked s.dev } in
    omega (
      arith,
      replaced reader_weight before after r r' s.readers e,
      looked-le s.dev,
      ap phase_weight p,
    )
Step-weight {s} (take before after r b e p) four =
    let r' : Reader = record r { phase = idle } in
    omega (arith, replaced reader_weight before after r r' s.readers e, ap phase_weight p)
Step-weight {s} (mode m also lt n l) four = omega (arith, if_so-le also 1)
Step-weight {s} (wipe y) four = omega (arith, ap (λ b. if_so b 1) y)

-- The readers stay four, and each step uses up some of what is left to do.
pub Run-weight :
    {n : ℕ} {s : System} → Run start n s → (length s.readers ≡ 4) × (n + weight s ≤ weight start)
Run-weight here = (refl, omega arith)
Run-weight (next run st) =
    let (four, before) = Run-weight run in
    (Step-length st ∙ four, omega (arith, Step-weight st (omega (arith, four)), before))

pub weight-start : weight start ≡ 420
unfolding weight total
weight-start = refl
