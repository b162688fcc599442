-- ===== src/Fixed/Locking.antt =====
-- The handlers of LKM/mutex_sleep_ioctl_exercise/fixed_device.c statement by statement, with the
-- mutex: Fixed.Device has what runs under it in one step.
pub mod Whole
use linux_kernel_modules.Base.{
  ℕ, ◌≡◌, refl, sym, ap, ◌∙◌, Bool, true, false, not, Option, none, some, List, [], ◌∷◌, ◌==◌,
  if◌then◌else◌, ltb, length, take, min, Ret, ok, fail, eagain, eintr, efault, einval, enotty,
  Bool-cases, inl, inr,
}
use linux_kernel_modules.Kernel.{is_zero}
use linux_kernel_modules.UserCopy.{copied_in}
use linux_kernel_modules.Mutex
use linux_kernel_modules.Mutex.{
  World, pure, ◌>>=◌, ◌>>◌, free, mutex_unlock, look, change, peek, hand_out, wake_up, returns,
  refuse, with_lock, wait_and_lock,
}
use linux_kernel_modules.Fixed.Device.{
  Device, Outcome, Cmd, reset, set_blocking, other, is_flag, buf_size, my_read, my_write, my_ioctl,
  read_locked, read_enter, give_up, Enter, go, sleep, interrupted,
}

-- The one queue, of the readers.
pub data Queue : Type 0 where
  read_queue : Queue

abbrev pub Handler : Type 0 → Type 0
Handler A = Mutex.Handler Device Queue A

abbrev pub clear : Device → Device
clear d = record d { data_size = 0 }

-- `my_read` behind the label "lock held".
abbrev pub read_message : (fault : Bool) → ℕ → Handler Ret
read_message fault count = do
  d ← look
  (let to_copy = min count d.data_size in
      if fault
      then refuse (fail efault)
      else do hand_out (take to_copy d.buffer); change clear; mutex_unlock; returns (ok to_copy))

unfoldable pub read_steps : (wait_signal lock_signal fault : Bool) → ℕ → Handler Ret
read_steps wait_signal lock_signal fault count = do
  mode ← peek
  (if is_zero mode.blocking_mode
      then with_lock lock_signal (do
        d ← look
        (if d.data_size == 0 then refuse (fail eagain) else read_message fault count))
      else wait_and_lock (λ d. ltb 0 d.data_size) wait_signal lock_signal
          (read_message fault count))

unfoldable pub write_steps : (lock_signal : Bool) (missing : ℕ) → List ℕ → Handler Ret
write_steps lock_signal missing src = with_lock lock_signal (
    let to_copy = min (length src) buf_size in
    do
      change (λ d. record d { buffer = copied_in to_copy missing src d.buffer })
      (if not (missing == 0) then refuse (fail efault) else do
        change (λ d. record d { data_size = to_copy })
        mutex_unlock
        wake_up read_queue
        returns (ok to_copy)))

unfoldable pub ioctl_steps : (fault lock_signal : Bool) → Cmd → Handler Ret
ioctl_steps fault lock_signal reset =
    with_lock lock_signal (do change clear; mutex_unlock; returns (ok 0))
ioctl_steps fault lock_signal (set_blocking val) =
    if fault
    then returns (fail efault)
    else if not (is_flag val)
    then returns (fail einval)
    else with_lock lock_signal
        (do change (λ d. record d { blocking_mode = val }); mutex_unlock; returns (ok 0))
ioctl_steps fault lock_signal other = returns (fail enotty)
