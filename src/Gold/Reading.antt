-- ===== src/Gold/Reading.antt =====
-- `gold_read` of LKM/mutex_sleep_ioctl_exercise/gold_device.c on every branch.
use native.Mathlib.Nat.{zero-add}
use mathlib.Core.Path.{subst}
use linux_kernel_modules.Base.{
  ℕ, ◌<◌, ◌≡◌, refl, ap, Bool, true, false, Option, none, some, [], ◌++◌, arith, min, length,
  if◌then◌else◌, Ret, ok, fail, eagain, eintr, efault, Bool-cases, inl, inr, ◌==◌, ◌⊎◌,
}
use linux_kernel_modules.Window.{items}
use linux_kernel_modules.Gold.Device.{
  GoldDev, FileCtx, Signals, buf_size, Outcome, nobody, gold_read, writers, read_locked, give_up,
  leave, sleep, whole_call,
}
use linux_kernel_modules.Gold.Inv.{IsValid, contents, Reads, Ends, read_loop-Reads}

-- What `gold_read` owes its caller.
abbrev pub ReadReturn : FileCtx → Signals → (ℕ → Bool) → ℕ → GoldDev → Outcome → Ret → Type 0
ReadReturn ctx s fault count d o (ok n) =
    (n ≡ length o.out) × (n ≡ min count d.size) × (o.wake ≡ writers)
ReadReturn ctx s fault count d o (fail eagain) =
    (ctx.nonblocking ≡ true) × (d.size ≡ 0) × (o.dev ≡ d) × (o.out ≡ [])
ReadReturn ctx s fault count d o (fail eintr) =
    ((s.wait ≡ true) ⊎ (s.lock ≡ true)) × (o.dev ≡ d) × (o.out ≡ [])
ReadReturn ctx s fault count d o (fail efault) =
    (fault (length o.out) ≡ true) × (length o.out < min count d.size) × (o.wake ≡ nobody)
ReadReturn ctx s fault count d o (fail _) = ⊥

pub record ReadDone (ctx : FileCtx) (s : Signals) (fault : ℕ → Bool) (count : ℕ) (d : GoldDev)
    (o : Outcome) : Type 0 where
  pub valid : IsValid o.dev
  pub split : contents d ≡ o.out ++ contents o.dev
  pub returns : ReadReturn ctx s fault count d o o.ret

abbrev pub ReadSpec : FileCtx → Signals → (ℕ → Bool) → ℕ → GoldDev → Option Outcome → Type 0
ReadSpec ctx s fault count d none = (ctx.nonblocking ≡ false) × (s.wait ≡ false) × (contents d ≡ [])
ReadSpec ctx s fault count d (some o) = ReadDone ctx s fault count d o

Reads-ReadReturn :
    (ctx : FileCtx) (s : Signals) (fault : ℕ → Bool) (count : ℕ) (d : GoldDev) (o : Outcome)
    (r : Ret)
    → Ends fault 0 (length o.out) (min count d.size) writers o.wake r
    → ReadReturn ctx s fault count d o r
Reads-ReadReturn ctx s fault count d o (ok n) h = (ground arith, ground arith, h.2)
Reads-ReadReturn ctx s fault count d o (fail efault) h =
    (subst (λ k. fault k ≡ true) (zero-add (length o.out)) h.2, h.1, h.3)
Reads-ReadReturn ctx s fault count d o (fail _) h = cc

Reads-ReadDone :
    (ctx : FileCtx) (s : Signals) (fault : ℕ → Bool) (count : ℕ) (d : GoldDev) (o : Outcome)
    → Reads fault count 0 d o
    → ReadDone ctx s fault count d o
Reads-ReadDone ctx s fault count d o r = record {
  valid = r.valid;
  split = r.split;
  returns = Reads-ReadReturn ctx s fault count d o o.ret r.ends;
}

unchanged-ReadDone :
    (ctx : FileCtx) (s : Signals) (fault : ℕ → Bool) (count : ℕ) (d : GoldDev) (r : Ret)
    → IsValid d
    → ReadReturn ctx s fault count d (give_up r d) r
    → ReadDone ctx s fault count d (give_up r d)
unchanged-ReadDone ctx s fault count d r v h = record { valid = v; split = refl; returns = h }

abbrev pub mode : Bool → FileCtx
mode nb = record { nonblocking = nb }

pub read_locked-ReadDone :
    (nb : Bool) (s : Signals) (fault : ℕ → Bool) (count : ℕ) (d : GoldDev)
    → IsValid d
    → ReadDone (mode nb) s fault count d (read_locked nb fault count d)
unfolding read_locked
read_locked-ReadDone false s fault count d v =
    Reads-ReadDone (mode false) s fault count d _ (read_loop-Reads fault count 0 d v)
read_locked-ReadDone true s fault count d v = elim (Bool-cases (d.size == 0)) [
  | inl e ↦ rw e (
      unchanged-ReadDone (mode true) s fault count d (fail eagain) v
        (refl, ground arith, refl, refl))
  | inr e ↦ rw e (Reads-ReadDone (mode true) s fault count d _ (read_loop-Reads fault count 0 d v))
]

abbrev pub signals : Bool → Bool → Signals
signals w l = record { wait = w; lock = l }

lock_part-ReadDone :
    (nb w l : Bool) (fault : ℕ → Bool) (count : ℕ) (d : GoldDev)
    → IsValid d
    → ReadDone
        (mode nb)
        (signals w l)
        fault
        count
        d
        (if l then give_up (fail eintr) d else read_locked nb fault count d)
lock_part-ReadDone nb w true fault count d v =
    unchanged-ReadDone (mode nb) (signals w true) fault count d (fail eintr) v
      (inr refl, refl, refl)
lock_part-ReadDone nb w false fault count d v =
    read_locked-ReadDone nb (signals w false) fault count d v

gold_read_cases :
    (nb w l : Bool) (fault : ℕ → Bool) (count : ℕ) (d : GoldDev)
    → IsValid d
    → ReadSpec
        (mode nb)
        (signals w l)
        fault
        count
        d
        (gold_read (mode nb) (signals w l) fault count d)
unfolding gold_read
gold_read_cases true w l fault count d v = lock_part-ReadDone true w l fault count d v
gold_read_cases false w l fault count d v = elim (Bool-cases (d.size == 0)) [
  | inr e ↦ rw e (lock_part-ReadDone false w l fault count d v)
  | inl e ↦ rw e (asleep w (ground arith))
]
  where
    asleep :
        (w : Bool)
        → d.size ≡ 0
        → ReadSpec (mode false) (signals w l) fault count d (
            whole_call
              (if w then leave (fail eintr) else sleep)
              (signals w l)
              (read_locked false fault count)
              d)
    asleep true z =
        unchanged-ReadDone (mode false) (signals true l) fault count d (fail eintr) v
          (inl refl, refl, refl)
    asleep false z = (refl, refl, ap (items buf_size 0 d.buffer d.tail) z)

-- Every call on a valid ring: it sleeps only if it may block, no signal came and the ring is
-- empty; else the ring stays valid, what it held is the bytes handed out followed by what it still
-- holds, and the return value is the number of bytes moved (the most that fit), or -EAGAIN,
-- -EINTR or -EFAULT for its own reason, the first two with nothing changed; a fault wakes nobody.
pub gold_read-ReadSpec :
    (ctx : FileCtx) (s : Signals) (fault : ℕ → Bool) (count : ℕ) (d : GoldDev)
    → IsValid d
    → ReadSpec ctx s fault count d (gold_read ctx s fault count d)
gold_read-ReadSpec ctx s fault count d v =
    gold_read_cases ctx.nonblocking s.wait s.lock fault count d v
