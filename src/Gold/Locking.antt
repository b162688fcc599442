-- ===== src/Gold/Locking.antt =====
-- The handlers of LKM/mutex_sleep_ioctl_exercise/gold_device.c statement by statement, with the mutex:
-- Gold.Device has what runs under it in one step.
pub mod Whole
use linux_kernel_modules.Base.{
  ℕ, zero, suc, ◌+◌, ◌≡◌, refl, Bool, true, false, not, Option, none, some, List, [], ◌∷◌, ◌++◌,
  if◌then◌else◌, get_or, Ret, ok, fail, eagain, efault, enotty, arith, append_assoc, append-nil,
  Bool-cases, inl, inr,
}
use linux_kernel_modules.Mutex
use linux_kernel_modules.Mutex.{
  returns, refuse, with_lock, wait_and_lock, World, M, pure, ◌>>=◌, ◌>>◌, free, Wait, mutex_lock,
  mutex_lock_interruptible, mutex_unlock, wait_event_interruptible, look, change, hand_out, wake_up,
  passed, interrupted, asleep,
}
use linux_kernel_modules.Gold.Device
use linux_kernel_modules.Gold.Device.{
  whole_call, go, sleep, read_locked, write_locked, GoldDev, FileCtx, Wake, nobody, readers,
  writers, Outcome, Signals, PollMask, Cmd, reset, get_bufsize, other, buf_size, buffer_empty,
  buffer_full, advance_tail, store_head, cleared, read_loop, write_loop, gold_read, gold_write,
  gold_poll, gold_ioctl,
}

abbrev pub Handler : Type 0 → Type 0
Handler A = Mutex.Handler GoldDev Wake A

-- The lock is given back, the queue is woken, and the handler returns.
abbrev pub leave : Wake → Ret → Handler Ret
leave queue r = do mutex_unlock; wake_up queue; returns r

-- The loop of `gold_read` and what follows it; `left` is `count - copied`.
unfoldable pub read_bytes : (ℕ → Bool) → (left copied : ℕ) → Handler Ret
unfolding buffer_empty
read_bytes fault zero copied = leave writers (ok copied)
read_bytes fault (suc left) copied = do
  d ← look
  (if buffer_empty d
      then leave writers (ok copied)
      else if fault copied
      then refuse (fail efault)
      else do
        hand_out (get_or d.buffer d.tail 0 ∷ [])
        change advance_tail
        read_bytes fault left (copied + 1))

unfoldable pub read_steps : FileCtx → Signals → (ℕ → Bool) → ℕ → Handler Ret
unfolding buffer_empty read_bytes
read_steps ctx s fault count =
    if ctx.nonblocking
    then with_lock s.lock
        (do d ← look; (if buffer_empty d then refuse (fail eagain) else read_bytes fault count 0))
    else wait_and_lock (λ d. not (buffer_empty d)) s.wait s.lock (read_bytes fault count 0)

-- The loop of `gold_write` and what follows it, over the user's bytes from `copied` on.
unfoldable pub write_bytes : (ℕ → Bool) → List ℕ → (copied : ℕ) → Handler Ret
unfolding buffer_full
write_bytes fault [] copied = leave readers (ok copied)
write_bytes fault (c ∷ src) copied = do
  d ← look
  (if buffer_full d
      then leave readers (ok copied)
      else if fault copied
      then refuse (fail efault)
      else do change (store_head c); write_bytes fault src (copied + 1))

unfoldable pub write_steps : FileCtx → Signals → (ℕ → Bool) → List ℕ → Handler Ret
unfolding buffer_full write_bytes
write_steps ctx s fault src =
    if ctx.nonblocking
    then with_lock s.lock
        (do d ← look; (if buffer_full d then refuse (fail eagain) else write_bytes fault src 0))
    else wait_and_lock (λ d. not (buffer_full d)) s.wait s.lock (write_bytes fault src 0)

unfoldable pub poll_steps : Handler PollMask
unfolding buffer_empty buffer_full
poll_steps = do
  mutex_lock
  d ← look
  mutex_unlock
  returns (record { readable = not (buffer_empty d); writable = not (buffer_full d) })

unfoldable pub ioctl_steps : (signal fault : Bool) → Cmd → Handler Ret
ioctl_steps signal fault reset = with_lock signal (do change cleared; leave writers (ok 0))
ioctl_steps signal fault get_bufsize =
    if fault then returns (fail efault) else (do hand_out (buf_size ∷ []); returns (ok 0))
ioctl_steps signal fault other = returns (fail enotty)
