-- ===== src/Fixed/Refine.antt =====
-- The fixed device of LKM/mutex_sleep_ioctl_exercise/fixed_device.c implements the box of
-- `Fixed.Mailbox`.
use linux_kernel_modules.Base.{
  ℕ, ◌≡◌, refl, sym, ap, ◌∙◌, Bool, true, false, not, Option, none, some, List, [], ◌∷◌, ◌==◌,
  if◌then◌else◌, length, min, Ret, ok, fail, eagain, arith, length-take, take-min, take-take-min,
  Bool-cases, Option-cases, inl, inr,
}
use mathlib.Core.Option.{some-injective}
use mathlib.Core.Path.{subst}
use linux_kernel_modules.Kernel.{is_zero}
use linux_kernel_modules.UserCopy.{take-copied_in}
use linux_kernel_modules.Fixed.Device.{
  Device, Outcome, give_up, buf_size, my_read, my_write, my_ioctl, reset, set_blocking, other,
  is_flag,
}
use linux_kernel_modules.Fixed.Laws.{
  IsValid, message, my_write-IsValid, my_ioctl-IsValid, my_read-message,
}
use linux_kernel_modules.Fixed.Mailbox
use linux_kernel_modules.Fixed.Mailbox.{Box, FileOp, read, write, ioctl, Seen, seen}

abbrev pub box_of : Device → Box
box_of d = record { waiting = message d; blocking = not (is_zero d.blocking_mode) }

-- A call's outcome: the device, the bytes handed out and the return value.
abbrev pub Replied : Type 0
Replied = Device × List ℕ × Ret

abbrev pub replied : Option Outcome → Option Replied
replied none = none
replied (some o) = some (o.dev, o.out, o.ret)

-- One call, undisturbed.
unfoldable pub step : Device → FileOp → Option Replied
unfolding my_read my_write my_ioctl
step d (read count) = replied (my_read false false false count d)
step d (write src) = replied (some (my_write false 0 src d))
step d (ioctl cmd) = let (e, r) = my_ioctl false false cmd d in some (e, [], r)

unfoldable pub run : Device → List FileOp → List (Option (List ℕ × Ret))
run d [] = []
run d (op ∷ ops) = elim (step d op) [
  | none ↦ none ∷ run d ops
  | some (e, out, r) ↦ some (out, r) ∷ run e ops
]

abbrev pub view? : Option Replied → Option Seen
view? none = none
view? (some (d, out, r)) = some (seen (box_of d) out r)

length-message : (d : Device) → IsValid d → length (message d) ≡ d.data_size
length-message d v = omega (arith, length-take d.data_size d.buffer, v.storage, v.size_in)

my_read-empty :
    (count : ℕ) (d : Device)
    → d.data_size ≡ 0
    → my_read false false false count d
      ≡ (if is_zero d.blocking_mode then some (give_up (fail eagain) d) else none)
unfolding my_read
my_read-empty count d e = ground arith

read_refines :
    (d : Device) (count : ℕ)
    → IsValid d
    → view? (replied (my_read false false false count d)) ≡ Mailbox.step (box_of d) (read count)
unfolding Mailbox.step
read_refines d count v = elim (Bool-cases (d.data_size == 0)) [
  | inl e ↦
      rw (length-message d v, e, my_read-empty count d (ground arith))
        (asleep (is_zero d.blocking_mode))
  | inr e ↦
      rw (length-message d v, e, my_read-message count d (ground arith))
        (ap
          (λ l. some (
            seen (record { waiting = []; blocking = not (is_zero d.blocking_mode) }) l
              (ok (min count d.data_size))))
          (sym (take-take-min count d.data_size d.buffer)))
]
  where
    asleep :
        (zero_mode : Bool)
        → view? (replied (if zero_mode then some (give_up (fail eagain) d) else none))
          ≡ (if not zero_mode then none else some (seen (box_of d) [] (fail eagain)))
    asleep true = refl
    asleep false = refl

write_refines :
    (d : Device) (src : List ℕ)
    → IsValid d
    → view? (replied (some (my_write false 0 src d))) ≡ Mailbox.step (box_of d) (write src)
unfolding Mailbox.step my_write
write_refines d src v =
    let wanted : ℕ = min (length src) buf_size in
    ap
      (λ l.
        some
          (seen (record { waiting = l; blocking = not (is_zero d.blocking_mode) }) [] (ok wanted)))
      (take-copied_in wanted wanted 0 src d.buffer (omega arith) (omega arith)
        ∙ take-min buf_size src)

-- A call on a valid device does what the box of its message does: it sleeps when that sleeps, and
-- else hands out the same bytes, returns the same value and leaves the same message and mode.
pub step_refines :
    (d : Device) (op : FileOp) → IsValid d → view? (step d op) ≡ Mailbox.step (box_of d) op
unfolding step Mailbox.step my_ioctl
step_refines d (read count) v = read_refines d count v
step_refines d (write src) v = write_refines d src v
step_refines d (ioctl reset) v = refl
step_refines d (ioctl (set_blocking val)) v = elim (Bool-cases (is_flag val)) [
  | inl e ↦ rw e refl
  | inr e ↦ rw e refl
]
step_refines d (ioctl other) v = refl

read-IsValid :
    (d : Device) (count : ℕ) (r : Replied)
    → IsValid d
    → replied (my_read false false false count d) ≡ some r
    → IsValid r.0
read-IsValid d count r v e = elim (Bool-cases (d.data_size == 0)) [
  | inl z ↦
      given_up (is_zero d.blocking_mode)
        (ap replied (sym (my_read-empty count d (ground arith))) ∙ e)
  | inr z ↦
      let k = ap replied (sym (my_read-message count d (ground arith))) ∙ e in
      subst (λ x. IsValid x.0) (some-injective _ _ k)
        (record { storage = v.storage; size_in = omega arith; mode_in = v.mode_in })
]
  where
    given_up :
        (zero_mode : Bool)
        → replied (if zero_mode then some (give_up (fail eagain) d) else none) ≡ some r
        → IsValid r.0
    given_up true k = subst (λ x. IsValid x.0) (some-injective _ _ k) v
    given_up false k = cc

step-IsValid :
    (d : Device) (op : FileOp) (r : Replied) → IsValid d → step d op ≡ some r → IsValid r.0
unfolding step
step-IsValid d (read count) r v e = read-IsValid d count r v e
step-IsValid d (write src) r v e =
    subst (λ x. IsValid x.0) (some-injective _ _ e) (my_write-IsValid false 0 src d (omega arith) v)
step-IsValid d (ioctl cmd) r v e =
    subst (λ x. IsValid x.0) (some-injective _ _ e) (my_ioctl-IsValid false false cmd d v)

-- No list of calls, each by itself and without signals and faults, tells a valid device from the box
-- of its message; a call that would sleep is given up.
pub fixed_run_refines :
    (ops : List FileOp) (d : Device) → IsValid d → run d ops ≡ Mailbox.run (box_of d) ops
unfolding run Mailbox.run
fixed_run_refines [] d v = refl
fixed_run_refines (op ∷ ops) d v = elim (Option-cases (step d op)) [
  | inl e ↦
      rw (← step_refines d op v, e, run, Mailbox.run)
        (ap (λ rest. none ∷ rest) (fixed_run_refines ops d v))
  | inr (r, e) ↦
      rw (← step_refines d op v, e, run, Mailbox.run)
        (ap (λ rest. some (r.1, r.2) ∷ rest) (fixed_run_refines ops r.0 (step-IsValid d op r v e)))
]
