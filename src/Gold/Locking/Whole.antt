-- ===== src/Gold/Locking/Whole.antt =====
-- The handlers of LKM/mutex_sleep_ioctl_exercise/gold_device.c, statement by statement
-- and in one step.
use linux_kernel_modules.Base.{
  ℕ, zero, suc, ◌+◌, ◌≡◌, refl, Bool, true, false, not, Option, none, some, List, [], ◌∷◌, ◌++◌,
  if◌then◌else◌, get_or, Ret, fail, eagain, arith, append_assoc, append-nil, Bool-cases, inl, inr,
}
use linux_kernel_modules.Mutex.{refuse, with_lock, wait_and_lock, World, free}
use linux_kernel_modules.Gold.Device
use linux_kernel_modules.Gold.Device.{
  whole_call, go, sleep, read_locked, write_locked, GoldDev, FileCtx, Wake, nobody, readers,
  writers, Outcome, Signals, PollMask, Cmd, reset, get_bufsize, other, buf_size, buffer_empty,
  buffer_full, advance_tail, store_head, cleared, read_loop, write_loop, gold_read, gold_write,
  gold_poll, gold_ioctl,
}
use linux_kernel_modules.Gold.Locking.{
  Handler, read_bytes, read_steps, write_bytes, write_steps, poll_steps, ioctl_steps,
}

-- The queue that a handler has woken.
abbrev woken_by : Wake → List Wake
woken_by nobody = []
woken_by readers = readers ∷ []
woken_by writers = writers ∷ []

abbrev after : List ℕ → Outcome → Option Ret × World GoldDev Wake
after out o =
    (some o.ret, record { held = false; dev = o.dev; out = out ++ o.out; woken = woken_by o.wake })

-- What a call of Gold.Device comes to, with the lock free.
abbrev pub unlocked : Option Outcome → GoldDev → Option Ret × World GoldDev Wake
unlocked none d = (none, free d)
unlocked (some o) d =
    (some o.ret, record { held = false; dev = o.dev; out = o.out; woken = woken_by o.wake })

abbrev locked : GoldDev → List ℕ → World GoldDev Wake
locked d out = record { held = true; dev = d; out = out; woken = [] }

read_bytes_lem :
    (fault : ℕ → Bool) (left copied : ℕ) (d : GoldDev) (out : List ℕ)
    → read_bytes fault left copied (locked d out) ≡ some (after out (read_loop fault left copied d))
unfolding read_bytes read_loop
read_bytes_lem fault zero copied d out = rw (append-nil out) refl
read_bytes_lem fault (suc left) copied d out =
    let c : List ℕ = get_or d.buffer d.tail 0 ∷ [] in
    let rest = read_loop fault left (copied + 1) (advance_tail d) in
    ground (
      arith,
      read_bytes_lem fault left (copied + 1) (advance_tail d) (out ++ c),
      append_assoc out c rest.out,
      append-nil out,
    )

write_bytes_lem :
    (fault : ℕ → Bool) (src : List ℕ) (copied : ℕ) (d : GoldDev)
    → write_bytes fault src copied (locked d []) ≡ some (after [] (write_loop fault src copied d))
unfolding write_bytes write_loop
write_bytes_lem fault [] copied d = refl
write_bytes_lem fault (c ∷ src) copied d =
    ground (arith, write_bytes_lem fault src (copied + 1) (store_head c d))

-- A nonblocking call, and a blocking one, from what they do under the lock.
with_lock_lem :
    (wait lock : Bool) (body : Handler Ret) (under : GoldDev → Outcome) (d : GoldDev)
    → body (locked d []) ≡ some (after [] (under d))
    → with_lock lock body (free d)
      ≡ some (unlocked (whole_call go (record { wait = wait; lock = lock }) under d) d)
with_lock_lem wait true body under d h = refl
with_lock_lem wait false body under d h = h

wait_and_lock_lem :
    (condition : GoldDev → Bool) (wait lock : Bool) (body : Handler Ret) (under : GoldDev → Outcome)
    (d : GoldDev)
    → body (locked d []) ≡ some (after [] (under d))
    → let s : Signals = record { wait = wait; lock = lock } in
      wait_and_lock condition s.wait s.lock body (free d)
      ≡ some
          (unlocked (whole_call (Device.wait_event_interruptible (condition d) wait) s under d) d)
unfolding Device.wait_event_interruptible
wait_and_lock_lem condition wait lock body under d h = go_on (condition d) wait
  where
    go_on :
        (holds signal : Bool)
        → let s : Signals = record { wait = signal; lock = lock } in
          wait_and_lock (λ _. holds) s.wait s.lock body (free d)
          ≡ some (unlocked (whole_call (Device.wait_event_interruptible holds signal) s under d) d)
    go_on true signal = with_lock_lem signal lock body under d h
    go_on false true = refl
    go_on false false = refl

read_unless_empty :
    (fault : ℕ → Bool) (count : ℕ) (d : GoldDev)
    → (if buffer_empty d then refuse (fail eagain) else read_bytes fault count 0) (locked d [])
      ≡ some (after [] (read_locked true fault count d))
unfolding read_locked
read_unless_empty fault count d = elim (Bool-cases (buffer_empty d)) [
  | inl empty ↦ rw empty refl
  | inr more ↦ rw more (read_bytes_lem fault count 0 d [])
]

write_unless_full :
    (fault : ℕ → Bool) (src : List ℕ) (d : GoldDev)
    → (if buffer_full d then refuse (fail eagain) else write_bytes fault src 0) (locked d [])
      ≡ some (after [] (write_locked true fault src d))
unfolding write_locked
write_unless_full fault src d = elim (Bool-cases (buffer_full d)) [
  | inl full ↦ rw full refl
  | inr room ↦ rw room (write_bytes_lem fault src 0 d)
]

read_steps_lem :
    (nonblocking wait lock : Bool) (fault : ℕ → Bool) (count : ℕ) (d : GoldDev)
    → let ctx : FileCtx = record { nonblocking = nonblocking } in
      let s : Signals = record { wait = wait; lock = lock } in
      read_steps ctx s fault count (free d) ≡ some (unlocked (gold_read ctx s fault count d) d)
unfolding read_steps gold_read
read_steps_lem true wait lock fault count d =
    with_lock_lem wait lock _ (read_locked true fault count) d (read_unless_empty fault count d)
read_steps_lem false wait lock fault count d =
    wait_and_lock_lem (λ x. not (buffer_empty x)) wait lock (read_bytes fault count 0)
      (read_locked false fault count) d (unfold read_locked in read_bytes_lem fault count 0 d [])

write_steps_lem :
    (nonblocking wait lock : Bool) (fault : ℕ → Bool) (src : List ℕ) (d : GoldDev)
    → let ctx : FileCtx = record { nonblocking = nonblocking } in
      let s : Signals = record { wait = wait; lock = lock } in
      write_steps ctx s fault src (free d) ≡ some (unlocked (gold_write ctx s fault src d) d)
unfolding write_steps gold_write
write_steps_lem true wait lock fault src d =
    with_lock_lem wait lock _ (write_locked true fault src) d (write_unless_full fault src d)
write_steps_lem false wait lock fault src d =
    wait_and_lock_lem (λ x. not (buffer_full x)) wait lock (write_bytes fault src 0)
      (write_locked false fault src) d (unfold write_locked in write_bytes_lem fault src 0 d)

ioctl_steps_lem :
    (signal fault : Bool) (c : Cmd) (d : GoldDev)
    → ioctl_steps signal fault c (free d) ≡ some (unlocked (some (gold_ioctl signal fault c d)) d)
unfolding ioctl_steps gold_ioctl
ioctl_steps_lem true fault reset d = refl
ioctl_steps_lem false fault reset d = refl
ioctl_steps_lem signal true get_bufsize d = refl
ioctl_steps_lem signal false get_bufsize d = refl
ioctl_steps_lem signal fault other d = refl

-- The handlers statement by statement, begun with the mutex free: on no path do they take it twice,
-- give it back when they do not hold it, sleep in a wait queue with it or touch the ring without
-- it, but for the condition of the wait, which reads `size` before the mutex is taken. They end with the mutex free, errors and sleep included, and with what Gold.Device says, where
-- all that is done under the mutex is one step: the ring, the bytes handed out, the return value
-- and the queue woken.
pub gold_handlers_locked :
    (ctx : FileCtx) (s : Signals) (fault : ℕ → Bool) (count : ℕ) (src : List ℕ)
    (signal copy_fault : Bool) (c : Cmd) (d : GoldDev)
    → (read_steps ctx s fault count (free d) ≡ some (unlocked (gold_read ctx s fault count d) d))
      × (write_steps ctx s fault src (free d) ≡ some (unlocked (gold_write ctx s fault src d) d))
      × (poll_steps (free d) ≡ some (some (gold_poll d), free d))
      × (ioctl_steps signal copy_fault c (free d)
          ≡ some (unlocked (some (gold_ioctl signal copy_fault c d)) d))
unfolding poll_steps gold_poll
gold_handlers_locked ctx s fault count src signal copy_fault c d = (
  read_steps_lem ctx.nonblocking s.wait s.lock fault count d,
  write_steps_lem ctx.nonblocking s.wait s.lock fault src d,
  refl,
  ioctl_steps_lem signal copy_fault c d,
)
