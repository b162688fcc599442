-- ===== src/Gold/Queue.antt =====
-- What the gold device promises: a FIFO of at most 256 bytes behind read, write and ioctl.
use linux_kernel_modules.Base.{
  ℕ, ◌-◌, Bool, Option, none, some, List, [], ◌∷◌, ◌++◌, ◌==◌, if◌then◌else◌, length, take, drop,
  min, Ret, ok, fail, eagain, enotty,
}
use linux_kernel_modules.Gold.Device.{buf_size, Cmd, reset, get_bufsize, other}

-- A call by a process that no signal reaches and whose memory never faults.
pub data FileOp : Type 0 where
  read : (count : ℕ) → FileOp
  write : List ℕ → FileOp
  ioctl : Cmd → FileOp

-- What the process sees of a call.
abbrev pub Reply : Type 0
Reply = List ℕ × Ret

-- What a call leaves in the queue, and its reply.
pub record Seen : Type 0 where
  pub held : List ℕ
  pub out : List ℕ
  pub ret : Ret

abbrev pub seen : List ℕ → List ℕ → Ret → Seen
seen held out ret = record { held = held; out = out; ret = ret }

-- Not at once: -EAGAIN if the file is nonblocking, else sleep.
abbrev pub not_now : Bool → List ℕ → Option Seen
not_now nonblocking q = if nonblocking then some (seen q [] (fail eagain)) else none

unfoldable pub step : Bool → List ℕ → FileOp → Option Seen
step nonblocking q (read count) =
    if length q == 0
    then not_now nonblocking q
    else some (seen (drop count q) (take count q) (ok (min count (length q))))
step nonblocking q (write src) =
    if length q == buf_size
    then not_now nonblocking q
    else some (
        seen (q ++ take (buf_size - length q) src) [] (ok (min (length src) (buf_size - length q))))
step nonblocking q (ioctl reset) = some (seen [] [] (ok 0))
step nonblocking q (ioctl get_bufsize) = some (seen q (buf_size ∷ []) (ok 0))
step nonblocking q (ioctl other) = some (seen q [] (fail enotty))

-- The replies to a list of calls, up to one that sleeps.
unfoldable pub run : Bool → List ℕ → List FileOp → List Reply
run nonblocking q [] = []
run nonblocking q (op ∷ ops) = elim (step nonblocking q op) [
  | none ↦ []
  | some s ↦ (s.out, s.ret) ∷ run nonblocking s.held ops
]
