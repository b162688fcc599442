-- ===== src/Gold/Refine.antt =====
-- The gold device implements the FIFO of `Gold.Queue`.
use linux_kernel_modules.Base.{
  ℕ, zero, suc, ◌-◌, ◌≡◌, refl, ap, Bool, true, false, Option, none, some, List, [], ◌∷◌, ◌++◌,
  ◌==◌, length, take, take-min, drop, min, Ret, ok, fail, arith, Bool-cases, Option-cases, inl, inr,
}
use linux_kernel_modules.Gold.Device.{
  buf_size, Cmd, reset, get_bufsize, other, GoldDev, Outcome, gold_read, gold_write, gold_ioctl,
  read_loop, write_loop, Wake, readers, writers,
}
use linux_kernel_modules.Gold.Inv.{
  IsValid, contents, length-contents, read_loop-Reads, write_loop-Writes, Ends,
}
use linux_kernel_modules.Gold.Queue
use linux_kernel_modules.Gold.Reading.{ReadSpec, gold_read-ReadSpec, mode, signals}
use linux_kernel_modules.Gold.Writing.{WriteSpec, gold_write-WriteSpec}
use mathlib.Core.Path.{subst}
use mathlib.Core.Option.{some-injective}
use linux_kernel_modules.Gold.Queue.{FileOp, read, write, ioctl, Reply, Seen, seen}

-- One call, undisturbed.
unfoldable pub step : Bool → GoldDev → FileOp → Option Outcome
unfolding gold_read gold_write gold_ioctl
step nb d (read count) =
    gold_read (record { nonblocking = nb }) (record { wait = false; lock = false }) (λ i. false)
      count d
step nb d (write src) =
    gold_write (record { nonblocking = nb }) (record { wait = false; lock = false }) (λ i. false)
      src d
step nb d (ioctl cmd) = some (gold_ioctl false false cmd d)

unfoldable pub run : Bool → GoldDev → List FileOp → List Reply
run nb d [] = []
run nb d (op ∷ ops) = elim (step nb d op) [ none ↦ [] | some o ↦ (o.out, o.ret) ∷ run nb o.dev ops ]

-- What a client sees of an outcome.
abbrev pub view : Outcome → Seen
view o = seen (contents o.dev) o.out o.ret

abbrev pub view? : Option Outcome → Option Seen
view? none = none
view? (some o) = some (view o)

-- The longest prefix that a limit allows is the first part of a split of that length.
prefix_of_split :
    (n : ℕ) (ys zs : List ℕ)
    → length ys ≡ min n (length (ys ++ zs))
    → (ys ≡ take n (ys ++ zs)) × (zs ≡ drop n (ys ++ zs))
prefix_of_split zero [] zs h = (refl, refl)
prefix_of_split (suc n) [] [] h = (refl, refl)
prefix_of_split (suc n) [] (z ∷ zs) h = absurd (omega arith)
prefix_of_split zero (y ∷ ys) zs h = absurd (omega arith)
prefix_of_split (suc n) (y ∷ ys) zs h =
    let rest = prefix_of_split n ys zs (omega arith) in (ap (λ l. y ∷ l) rest.0, rest.1)

take_of_split :
    (n : ℕ) (xs ys zs : List ℕ)
    → xs ≡ ys ++ zs
    → length ys ≡ min n (length xs)
    → (ys ≡ take n xs) × (zs ≡ drop n xs)
take_of_split n xs ys zs e h = rw e (prefix_of_split n ys zs (rw e at h))

-- A loop that no fault stops.
Ends-calm :
    (moved most : ℕ) (woken wake : Wake) (r : Ret)
    → Ends (λ i. false) 0 moved most woken wake r
    → (r ≡ ok most) × (moved ≡ most)
Ends-calm moved most woken wake (ok n) h = (ap ok (omega arith), h.1)
Ends-calm moved most woken wake (fail e) h = cc

abbrev pub calm : ℕ → Bool
calm i = false

pub view-read_loop :
    (count : ℕ) (d : GoldDev)
    → IsValid d
    → view (read_loop calm count 0 d)
      ≡ seen
          (drop count (contents d))
          (take count (contents d))
          (ok (min count (length (contents d))))
view-read_loop count d v =
    let o = read_loop calm count 0 d in
    let r = read_loop-Reads calm count 0 d v in
    let e = Ends-calm (length o.out) (min count d.size) writers o.wake o.ret r.ends in
    let s =
      take_of_split count (contents d) o.out (contents o.dev) r.split
        (rw (length-contents d) e.1) in
    rw (← s.0, ← s.1, e.0, length-contents d) refl

pub view-write_loop :
    (src : List ℕ) (d : GoldDev)
    → IsValid d
    → view (write_loop calm src 0 d)
      ≡ seen
          (contents d ++ take (buf_size - length (contents d)) src)
          []
          (ok (min (length src) (buf_size - length (contents d))))
view-write_loop src d v =
    let o = write_loop calm src 0 d in
    let w = write_loop-Writes calm src 0 d v in
    let e = Ends-calm w.taken (min (length src) (buf_size - d.size)) readers o.wake o.ret w.ends in
    rw (w.silent, e.0, w.appended, e.1, take-min (buf_size - d.size) src, length-contents d) refl

contents_test :
    (d : GoldDev) (n : ℕ) (b : Bool) → (d.size == n) ≡ b → (length (contents d) == n) ≡ b
contents_test d n b e = rw (length-contents d) e

-- A call on a valid ring does what the FIFO of its contents does: it sleeps when that sleeps, and
-- else hands out the same bytes, returns the same value and leaves the same contents.
pub step_refines :
    (nb : Bool) (d : GoldDev) (op : FileOp)
    → IsValid d
    → view? (step nb d op) ≡ Queue.step nb (contents d) op
unfolding step Queue.step
step_refines true d (read count) v = elim (Bool-cases (d.size == 0)) [
  | inl e ↦ rw (contents_test d 0 true e, e)
  | inr e ↦ rw (contents_test d 0 false e, e) (ap some (view-read_loop count d v))
]
step_refines false d (read count) v = elim (Bool-cases (d.size == 0)) [
  | inl e ↦ rw (contents_test d 0 true e, e)
  | inr e ↦ rw (contents_test d 0 false e, e) (ap some (view-read_loop count d v))
]
step_refines true d (write src) v = elim (Bool-cases (d.size == buf_size)) [
  | inl e ↦ rw (contents_test d buf_size true e, e)
  | inr e ↦ rw (contents_test d buf_size false e, e) (ap some (view-write_loop src d v))
]
step_refines false d (write src) v = elim (Bool-cases (d.size == buf_size)) [
  | inl e ↦ rw (contents_test d buf_size true e, e)
  | inr e ↦ rw (contents_test d buf_size false e, e) (ap some (view-write_loop src d v))
]
step_refines nb d (ioctl reset) v = refl
step_refines nb d (ioctl get_bufsize) v = refl
step_refines nb d (ioctl other) v = refl

-- Whatever a call does, the ring stays valid.
pub gold_ioctl-IsValid :
    (signal fault : Bool) (cmd : Cmd) (d : GoldDev)
    → IsValid d
    → IsValid (gold_ioctl signal fault cmd d).dev
unfolding gold_ioctl
gold_ioctl-IsValid true fault reset d v = v
gold_ioctl-IsValid false fault reset d v = omega arith
gold_ioctl-IsValid signal true get_bufsize d v = v
gold_ioctl-IsValid signal false get_bufsize d v = v
gold_ioctl-IsValid signal fault other d v = v

step-IsValid :
    (nb : Bool) (d : GoldDev) (op : FileOp) (o : Outcome)
    → IsValid d
    → step nb d op ≡ some o
    → IsValid o.dev
unfolding step
step-IsValid nb d (read count) o v e =
    (subst (ReadSpec (mode nb) (signals false false) calm count d) e
      (gold_read-ReadSpec (mode nb) (signals false false) calm count d v)).valid
step-IsValid nb d (write src) o v e =
    (subst (WriteSpec (mode nb) (signals false false) calm src d) e
      (gold_write-WriteSpec (mode nb) (signals false false) calm src d v)).valid
step-IsValid nb d (ioctl cmd) o v e =
    subst (λ r. IsValid r.dev) (some-injective _ _ e) (gold_ioctl-IsValid false false cmd d v)

-- No list of calls, each by itself and without signals and faults, tells a valid ring from the FIFO
-- of its contents, in either mode, up to the first call that sleeps.
pub gold_run_refines :
    (nb : Bool) (ops : List FileOp) (d : GoldDev)
    → IsValid d
    → run nb d ops ≡ Queue.run nb (contents d) ops
unfolding run Queue.run
gold_run_refines nb [] d v = refl
gold_run_refines nb (op ∷ ops) d v = elim (Option-cases (step nb d op)) [
  | inl e ↦ rw (← step_refines nb d op v, e, run, Queue.run)
  | inr (o, e) ↦
      rw (← step_refines nb d op v, e, run, Queue.run)
        (ap (λ rest. (o.out, o.ret) ∷ rest)
          (gold_run_refines nb ops o.dev (step-IsValid nb d op o v e)))
]
