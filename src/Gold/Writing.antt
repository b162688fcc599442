-- ===== src/Gold/Writing.antt =====
-- `gold_write` of LKM/mutex_sleep_ioctl_exercise/gold_device.c on every branch.
use native.Mathlib.Nat.{zero-add}
use linux_kernel_modules.Base.{
  ℕ, ◌-◌, ◌<◌, ◌≡◌, refl, sym, Bool, true, false, Option, none, some, List, ◌++◌, arith, min,
  length, take, if◌then◌else◌, Ret, ok, fail, eagain, eintr, efault, Bool-cases, inl, inr, ◌==◌,
  ◌⊎◌, append-nil,
}
use linux_kernel_modules.Gold.Device.{
  GoldDev, FileCtx, Signals, buf_size, Outcome, nobody, gold_write, readers, write_locked, give_up,
  leave, sleep, whole_call,
}
use linux_kernel_modules.Gold.Reading.{mode, signals}
use linux_kernel_modules.Gold.Inv.{IsValid, contents, Writes, Ends, write_loop-Writes}

-- What `gold_write` owes its caller, having taken `taken` bytes.
abbrev pub WriteReturn :
    FileCtx → Signals → (ℕ → Bool) → List ℕ → GoldDev → ℕ → Outcome → Ret → Type 0
WriteReturn ctx s fault src d taken o (ok n) =
    (n ≡ taken) × (n ≡ min (length src) (buf_size - d.size)) × (o.wake ≡ readers)
WriteReturn ctx s fault src d taken o (fail eagain) =
    (ctx.nonblocking ≡ true) × (d.size ≡ buf_size) × (o.dev ≡ d)
WriteReturn ctx s fault src d taken o (fail eintr) =
    ((s.wait ≡ true) ⊎ (s.lock ≡ true)) × (o.dev ≡ d)
WriteReturn ctx s fault src d taken o (fail efault) =
    (fault taken ≡ true) × (taken < min (length src) (buf_size - d.size)) × (o.wake ≡ nobody)
WriteReturn ctx s fault src d taken o (fail _) = ⊥

pub record WriteDone (ctx : FileCtx) (s : Signals) (fault : ℕ → Bool) (src : List ℕ) (d : GoldDev)
    (o : Outcome) : Type 0 where
  pub valid : IsValid o.dev
  pub taken : ℕ
  pub appended : contents o.dev ≡ contents d ++ take taken src
  pub returns : WriteReturn ctx s fault src d taken o o.ret

abbrev pub WriteSpec : FileCtx → Signals → (ℕ → Bool) → List ℕ → GoldDev → Option Outcome → Type 0
WriteSpec ctx s fault src d none =
    (ctx.nonblocking ≡ false) × (s.wait ≡ false) × (d.size ≡ buf_size)
WriteSpec ctx s fault src d (some o) = WriteDone ctx s fault src d o

Ends-WriteReturn :
    (ctx : FileCtx) (s : Signals) (fault : ℕ → Bool) (src : List ℕ) (d : GoldDev) (taken : ℕ)
    (o : Outcome) (r : Ret)
    → Ends fault 0 taken (min (length src) (buf_size - d.size)) readers o.wake r
    → WriteReturn ctx s fault src d taken o r
Ends-WriteReturn ctx s fault src d taken o (ok n) h = (ground arith, ground arith, h.2)
Ends-WriteReturn ctx s fault src d taken o (fail efault) h = (rw zero-add at h.2, h.1, h.3)
Ends-WriteReturn ctx s fault src d taken o (fail _) h = cc

Writes-WriteDone :
    (ctx : FileCtx) (s : Signals) (fault : ℕ → Bool) (src : List ℕ) (d : GoldDev) (o : Outcome)
    → Writes fault src 0 d o
    → WriteDone ctx s fault src d o
Writes-WriteDone ctx s fault src d o w = record {
  valid = w.valid;
  taken = w.taken;
  appended = w.appended;
  returns = Ends-WriteReturn ctx s fault src d w.taken o o.ret w.ends;
}

unchanged-WriteDone :
    (ctx : FileCtx) (s : Signals) (fault : ℕ → Bool) (src : List ℕ) (d : GoldDev) (r : Ret)
    → IsValid d
    → WriteReturn ctx s fault src d 0 (give_up r d) r
    → WriteDone ctx s fault src d (give_up r d)
unchanged-WriteDone ctx s fault src d r v h = record {
  valid = v;
  taken = 0;
  appended = sym (append-nil (contents d));
  returns = h;
}

pub write_locked-WriteDone :
    (nb : Bool) (s : Signals) (fault : ℕ → Bool) (src : List ℕ) (d : GoldDev)
    → IsValid d
    → WriteDone (mode nb) s fault src d (write_locked nb fault src d)
unfolding write_locked
write_locked-WriteDone false s fault src d v =
    Writes-WriteDone (mode false) s fault src d _ (write_loop-Writes fault src 0 d v)
write_locked-WriteDone true s fault src d v = elim (Bool-cases (d.size == buf_size)) [
  | inl e ↦
      rw e
        (unchanged-WriteDone (mode true) s fault src d (fail eagain) v (refl, ground arith, refl))
  | inr e ↦ rw e (Writes-WriteDone (mode true) s fault src d _ (write_loop-Writes fault src 0 d v))
]

lock_part-WriteDone :
    (nb w l : Bool) (fault : ℕ → Bool) (src : List ℕ) (d : GoldDev)
    → IsValid d
    → WriteDone
        (mode nb)
        (signals w l)
        fault
        src
        d
        (if l then give_up (fail eintr) d else write_locked nb fault src d)
lock_part-WriteDone nb w true fault src d v =
    unchanged-WriteDone (mode nb) (signals w true) fault src d (fail eintr) v (inr refl, refl)
lock_part-WriteDone nb w false fault src d v =
    write_locked-WriteDone nb (signals w false) fault src d v

gold_write_cases :
    (nb w l : Bool) (fault : ℕ → Bool) (src : List ℕ) (d : GoldDev)
    → IsValid d
    → WriteSpec (mode nb) (signals w l) fault src d (gold_write (mode nb) (signals w l) fault src d)
unfolding gold_write
gold_write_cases true w l fault src d v = lock_part-WriteDone true w l fault src d v
gold_write_cases false w l fault src d v = elim (Bool-cases (d.size == buf_size)) [
  | inr e ↦ rw e (lock_part-WriteDone false w l fault src d v)
  | inl e ↦ rw e (asleep w (ground arith))
]
  where
    asleep :
        (w : Bool)
        → d.size ≡ buf_size
        → WriteSpec (mode false) (signals w l) fault src d (
            whole_call
              (if w then leave (fail eintr) else sleep)
              (signals w l)
              (write_locked false fault src)
              d)
    asleep true z =
        unchanged-WriteDone (mode false) (signals true l) fault src d (fail eintr) v
          (inl refl, refl)
    asleep false z = (refl, refl, z)

-- Every call on a valid ring: it sleeps only if it may block, no signal came and the ring is
-- full; else the ring stays valid, some first bytes of the user's stand behind those it held, and
-- the return value is their number (the most that fit), or -EAGAIN, -EINTR or -EFAULT for its own
-- reason, the first two with nothing changed; a fault wakes nobody.
pub gold_write-WriteSpec :
    (ctx : FileCtx) (s : Signals) (fault : ℕ → Bool) (src : List ℕ) (d : GoldDev)
    → IsValid d
    → WriteSpec ctx s fault src d (gold_write ctx s fault src d)
gold_write-WriteSpec ctx s fault src d v =
    gold_write_cases ctx.nonblocking s.wait s.lock fault src d v
