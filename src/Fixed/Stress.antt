-- ===== src/Fixed/Stress.antt =====
-- LKM/mutex_sleep_ioctl_exercise/stress_test.c on the fixed device: the calls of its writer, reader
-- and ioctl threads, in any order.
pub mod Program
pub mod Measure
pub mod Awaited
pub mod End
use linux_kernel_modules.Base.{
  ℕ, zero, suc, ◌≤◌, ◌<◌, ◌≡◌, refl, ap, ap₂, ◌∙◌, Bool, true, false, not, List, [], ◌∷◌, ◌++◌,
  ◌==◌, length, take, min, arith, ◌&&◌, Bool-cases, Ret, ok, fail, pos, ◌⊎◌, inl, inr,
  length-append, length-take,
}
use linux_kernel_modules.UserCopy.{copied_in, take-copied_in}
use linux_kernel_modules.Text.{decimal, written}
use linux_kernel_modules.Text.Decimal.{take-long}
use linux_kernel_modules.Fixed.Device.{
  Device, fresh, buf_size, read_locked, my_write, my_ioctl, reset, set_blocking, is_flag,
}
use linux_kernel_modules.Fixed.Laws.{message}

-- MAX_MSG.
abbrev pub max_msg : ℕ
max_msg = 64

-- What `writer_thread` writes: "W%d:%d" of its number and the round, with the NUL.
unfoldable pub writer_message : (id i : ℕ) → List ℕ
writer_message id i = written max_msg (87 ∷ decimal (pos id) (58 ∷ decimal (pos i) [])) ++ (0 ∷ [])

-- The test of `reader_thread`, on what a read gives: it returned bytes, and the first is not 'W'.
abbrev pub corruption : Ret → List ℕ → Bool
corruption (ok zero) buf = false
corruption (ok (suc n)) [] = true
corruption (ok (suc n)) (c ∷ buf) = not (c == 87)
corruption (fail e) buf = false

-- The calls, from the lock on. The memory of the program can be read and written.
pub data Step (d : Device) : Device → Type 0 where
  writer_thread :
      (signal : Bool) (id i : ℕ) → Step d (my_write signal 0 (writer_message id i) d).dev
  reader_thread : (blocking : Bool) → Step d (read_locked blocking false max_msg d).dev
  ioctl_mode :
      (signal : Bool) (mode : ℕ)
      → mode < 2
      → Step d (my_ioctl false signal (set_blocking (pos mode)) d).0
  ioctl_reset : (signal : Bool) → Step d (my_ioctl false signal reset d).0

pub data Reach : Device → Type 0 where
  start : Reach fresh
  next : {d e : Device} → Reach d → Step d e → Reach e

-- The device is empty or holds what a writer wrote, whole.
abbrev pub Holds : Device → Type 0
Holds d =
    (d.data_size ≡ 0)
    ⊎ (id : ℕ) × (i : ℕ) × (message d ≡ writer_message id i)
      × (d.data_size ≡ length (writer_message id i))

length-writer_message : (id i : ℕ) → length (writer_message id i) ≤ 64
unfolding writer_message
length-writer_message id i =
    let text = 87 ∷ decimal (pos id) (58 ∷ decimal (pos i) []) in
    omega (arith, length-append (take 63 text) (0 ∷ []), length-take 63 text)

begins : (id i : ℕ) → (rest : List ℕ) × (writer_message id i ≡ 87 ∷ rest)
unfolding writer_message
begins id i = (take 62 (decimal (pos id) (58 ∷ decimal (pos i) [])) ++ (0 ∷ []), refl)

stored :
    (msg buf : List ℕ)
    → length msg ≤ 64
    → take (min (length msg) buf_size) (copied_in (min (length msg) buf_size) 0 msg buf) ≡ msg
stored msg buf h =
    take-copied_in (min (length msg) buf_size) (min (length msg) buf_size) 0 msg buf (omega arith)
      (omega arith)
    ∙ take-long (min (length msg) buf_size) msg (omega arith)

flag : (mode : ℕ) → mode < 2 → is_flag (pos mode) ≡ true
flag mode m = ground arith

Step-Holds : {d e : Device} → Step d e → Holds d → Holds e
unfolding my_write read_locked my_ioctl
Step-Holds {d} (writer_thread true id i) h = h
Step-Holds {d} (writer_thread false id i) h = inr (
  id,
  i,
  stored (writer_message id i) d.buffer (length-writer_message id i),
  omega (arith, length-writer_message id i),
)
Step-Holds {d} (reader_thread blocking) h = elim (Bool-cases (not blocking && (d.data_size == 0))) [
  | inl again ↦ rw again h
  | inr taken ↦ rw taken (inl refl)
]
Step-Holds {d} (ioctl_mode true mode m) h = rw (flag mode m) h
Step-Holds {d} (ioctl_mode false mode m) h = rw (flag mode m) h
Step-Holds {d} (ioctl_reset true) h = h
Step-Holds {d} (ioctl_reset false) h = inl refl

Reach-Holds : {d : Device} → Reach d → Holds d
Reach-Holds start = inl refl
Reach-Holds (next r s) = Step-Holds s (Reach-Holds r)

some_bytes : (id i : ℕ) → 0 < length (writer_message id i)
some_bytes id i = let (rest, e) = begins id i in rw e (omega arith)

read_whole :
    (blocking : Bool) (d : Device) (id i : ℕ)
    → message d ≡ writer_message id i
    → d.data_size ≡ length (writer_message id i)
    → let o = read_locked blocking false max_msg d in
      (o.ret ≡ ok (length (writer_message id i))) × (o.out ≡ writer_message id i)
unfolding read_locked
read_whole true d id i m n =
    let whole : min 64 d.data_size ≡ d.data_size = omega (arith, length-writer_message id i) in
    (ap ok (whole ∙ n), ap (λ k. take k d.buffer) whole ∙ m)
read_whole false d id i m n =
    let whole : min 64 d.data_size ≡ d.data_size = omega (arith, length-writer_message id i) in
    let more : (d.data_size == 0) ≡ false = ground (arith, some_bytes id i) in
    rw more (ap ok (whole ∙ n), ap (λ k. take k d.buffer) whole ∙ m)

read_nothing :
    (blocking : Bool) (d : Device)
    → d.data_size ≡ 0
    → let o = read_locked blocking false max_msg d in
      (corruption o.ret o.out ≡ false) × (o.out ≡ [])
unfolding read_locked
read_nothing true d empty =
    let nothing : min 64 d.data_size ≡ 0 = omega arith in rw nothing (refl, refl)
read_nothing false d empty =
    let nothing : (d.data_size == 0) ≡ true = ground arith in rw nothing (refl, refl)

accepted : (id i : ℕ) → corruption (ok (length (writer_message id i))) (writer_message id i) ≡ false
accepted id i = let (rest, e) = begins id i in rw e refl

-- Whatever the threads of the stress test, whose memory never faults, do to the device, and in
-- whatever order, a reader gets nothing or the whole of a message that a writer wrote, and never
-- reports corruption.
pub no_corruption :
    (d : Device) (blocking : Bool)
    → Reach d
    → let o = read_locked blocking false max_msg d in
      (corruption o.ret o.out ≡ false)
      × ((o.out ≡ []) ⊎ (id : ℕ) × (i : ℕ) × (o.out ≡ writer_message id i))
no_corruption d blocking r = elim (Reach-Holds r) [
  | inl empty ↦ let (fine, nothing) = read_nothing blocking d empty in (fine, inl nothing)
  | inr (id, i, m, n) ↦
      let (ret, out) = read_whole blocking d id i m n in
      (ap₂ corruption ret out ∙ accepted id i, inr (id, i, out))
]
