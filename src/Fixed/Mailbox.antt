-- ===== src/Fixed/Mailbox.antt =====
-- What the fixed device promises: a box for one message of at most 128 bytes.
use linux_kernel_modules.Base.{
  ℕ, Bool, not, Option, none, some, List, [], ◌∷◌, ◌==◌, if◌then◌else◌, length, take, min, Ret, ok,
  fail, eagain, einval, enotty,
}
use linux_kernel_modules.Kernel.{is_zero}
use linux_kernel_modules.Fixed.Device.{buf_size, Cmd, reset, set_blocking, other, is_flag}

pub record Box : Type 0 where
  pub waiting : List ℕ
  pub blocking : Bool

-- A call by a process that no signal reaches and whose memory never faults.
pub data FileOp : Type 0 where
  read : (count : ℕ) → FileOp
  write : List ℕ → FileOp
  ioctl : Cmd → FileOp

-- What a call leaves in the box, and what the process sees of it.
pub record Seen : Type 0 where
  pub left : Box
  pub out : List ℕ
  pub ret : Ret

abbrev pub seen : Box → List ℕ → Ret → Seen
seen left out ret = record { left = left; out = out; ret = ret }

-- A read takes the message, also the part that it has no room for; a write replaces it. `none`: the
-- call sleeps.
unfoldable pub step : Box → FileOp → Option Seen
step b (read count) =
    if length b.waiting == 0
    then (if b.blocking then none else some (seen b [] (fail eagain)))
    else some (
        seen (record b { waiting = [] }) (take count b.waiting) (ok (min count (length b.waiting))))
step b (write src) =
    some (seen (record b { waiting = take buf_size src }) [] (ok (min (length src) buf_size)))
step b (ioctl reset) = some (seen (record b { waiting = [] }) [] (ok 0))
step b (ioctl (set_blocking val)) =
    if is_flag val
    then some (seen (record b { blocking = not (is_zero val) }) [] (ok 0))
    else some (seen b [] (fail einval))
step b (ioctl other) = some (seen b [] (fail enotty))

-- The replies to a list of calls; `none` for a call that would sleep, which is given up.
unfoldable pub run : Box → List FileOp → List (Option (List ℕ × Ret))
run b [] = []
run b (op ∷ ops) = elim (step b op) [
  | none ↦ none ∷ run b ops
  | some s ↦ some (s.out, s.ret) ∷ run s.left ops
]
