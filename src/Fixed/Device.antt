-- ===== src/Fixed/Device.antt =====
-- State and file operations of LKM/mutex_sleep_ioctl_exercise/fixed_device.c. Signals and what
-- happens to copies from and to user memory are arguments.
use linux_kernel_modules.Base.{
  ℕ, Bool, true, false, not, ◌&&◌, ◌||◌, Option, none, some, List, [], ◌==◌, ltb, if◌then◌else◌,
  length, take, replicate, min, Ret, ok, fail, eagain, eintr, efault, einval, enotty, ℤ, pos,
  negsuc,
}
use linux_kernel_modules.UserCopy.{copied_in}
use linux_kernel_modules.Kernel.{is_zero}

abbrev pub buf_size : ℕ
buf_size = 128

-- The static state, without the lock and the queue. Both sizes are `size_t` and stay small.
pub record Device : Type 0 where
  pub buffer : List ℕ
  pub data_size : ℕ
  pub blocking_mode : ℤ

abbrev pub fresh : Device
fresh = record { buffer = replicate buf_size 0; data_size = 0; blocking_mode = pos 1 }

pub record Outcome : Type 0 where
  pub dev : Device
  pub out : List ℕ  -- bytes handed to user memory
  pub ret : Ret
  pub wake : Bool  -- whether the readers are woken

abbrev pub give_up : Ret → Device → Outcome
give_up r d = record { dev = d; out = []; ret = r; wake = false }

-- Before the lock of `my_read`: the mode is read, and in blocking mode the wait is done. `some b`:
-- go on to take the lock, having seen mode `b`; `none`: sleep, or -EINTR.
pub data Enter : Type 0 where
  go : (blocking : Bool) → Enter
  sleep interrupted : Enter

unfoldable pub read_enter : (signal : Bool) → Device → Enter
read_enter signal d =
    if is_zero d.blocking_mode
    then go false
    else if ltb 0 d.data_size
    then go true
    else if signal
    then interrupted
    else sleep

-- `my_read` under the lock. `out` is what a copy that succeeds hands over; where it fails, a part of it
-- may have reached the user too.
unfoldable pub read_locked : (blocking fault : Bool) → ℕ → Device → Outcome
read_locked blocking fault count d =
    let to_copy = min count d.data_size in
    if not blocking && (d.data_size == 0)
    then give_up (fail eagain) d
    else if fault
    then give_up (fail efault) d
    else record {
      dev = record d { data_size = 0 };
      out = take to_copy d.buffer;
      ret = ok to_copy;
      wake = false;
    }

-- A whole `my_read` during which no other thread runs; `none` means that it sleeps.
unfoldable pub my_read : (wait_signal lock_signal fault : Bool) → ℕ → Device → Option Outcome
unfolding read_enter read_locked
my_read wait_signal lock_signal fault count d = elim (read_enter wait_signal d) [
  | sleep ↦ none
  | interrupted ↦ some (give_up (fail eintr) d)
  | go blocking ↦
      some (if lock_signal then give_up (fail eintr) d else read_locked blocking fault count d)
]

-- `my_write`; `missing` is what `copy_from_user` returns, at most what it was asked to copy.
unfoldable pub my_write : (lock_signal : Bool) (missing : ℕ) → List ℕ → Device → Outcome
my_write lock_signal missing src d =
    let to_copy = min (length src) buf_size in
    let written = record d { buffer = copied_in to_copy missing src d.buffer } in
    if lock_signal
    then give_up (fail eintr) d
    else if not (missing == 0)
    then give_up (fail efault) written
    else record {
      dev = record written { data_size = to_copy };
      out = [];
      ret = ok to_copy;
      wake = true;
    }

-- The commands of `my_ioctl`; `set_blocking` with the user's `int`.
pub data Cmd : Type 0 where
  reset other : Cmd
  set_blocking : (val : ℤ) → Cmd

abbrev pub is_flag : ℤ → Bool
is_flag (pos n) = (n == 0) || (n == 1)
is_flag (negsuc n) = false

unfoldable pub my_ioctl : (fault lock_signal : Bool) → Cmd → Device → Device × Ret
my_ioctl fault lock_signal reset d =
    if lock_signal then (d, fail eintr) else (record d { data_size = 0 }, ok 0)
my_ioctl fault lock_signal (set_blocking val) d =
    if fault
    then (d, fail efault)
    else if not (is_flag val)
    then (d, fail einval)
    else if lock_signal
    then (d, fail eintr)
    else (record d { blocking_mode = val }, ok 0)
my_ioctl fault lock_signal other d = (d, fail enotty)
