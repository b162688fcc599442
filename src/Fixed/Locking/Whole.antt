-- ===== src/Fixed/Locking/Whole.antt =====
-- The handlers of LKM/mutex_sleep_ioctl_exercise/fixed_device.c, statement by statement
-- and in one step.
use linux_kernel_modules.Base.{
  ℕ, ◌≡◌, refl, sym, ap, ◌∙◌, Bool, true, false, Option, none, some, List, [], ◌∷◌, ◌==◌,
  if◌then◌else◌, ltb, Ret, ok, fail, eagain, eintr, Bool-cases, inl, inr,
}
use linux_kernel_modules.Kernel.{is_zero}
use linux_kernel_modules.Mutex.{
  World, ◌>>=◌, ◌>>◌, free, mutex_unlock, look, change, returns, refuse, with_lock, wait_and_lock,
}
use linux_kernel_modules.Fixed.Device.{
  Device, Outcome, Cmd, reset, set_blocking, other, is_flag, my_read, my_write, my_ioctl,
  read_locked, read_enter, give_up, Enter, go, sleep, interrupted,
}
use linux_kernel_modules.Fixed.Locking.{
  Queue, read_queue, Handler, read_message, read_steps, write_steps, ioctl_steps,
}

abbrev woken_by : Bool → List Queue
woken_by true = read_queue ∷ []
woken_by false = []

-- What a call of Fixed.Device comes to, with the lock free.
abbrev pub unlocked : Option Outcome → Device → Option Ret × World Device Queue
unlocked none d = (none, free d)
unlocked (some o) d =
    (some o.ret, record { held = false; dev = o.dev; out = o.out; woken = woken_by o.wake })

-- `my_ioctl` hands nothing out and wakes nobody.
abbrev pub changed : Device × Ret → Option Ret × World Device Queue
changed r = (some r.1, free r.0)

abbrev locked : Device → World Device Queue
locked d = record { held = true; dev = d; out = []; woken = [] }

read_message_lem :
    (fault : Bool) (count : ℕ) (d : Device)
    → read_message fault count (locked d)
      ≡ some (unlocked (some (read_locked true fault count d)) d)
unfolding read_locked
read_message_lem true count d = refl
read_message_lem false count d = refl

read_unless_empty :
    (fault : Bool) (count : ℕ) (d : Device)
    → (if d.data_size == 0 then refuse (fail eagain) else read_message fault count) (locked d)
      ≡ some (unlocked (some (read_locked false fault count d)) d)
unfolding read_locked
read_unless_empty true count d = elim (Bool-cases (d.data_size == 0)) [
  | inl empty ↦ rw empty refl
  | inr more ↦ rw more refl
]
read_unless_empty false count d = elim (Bool-cases (d.data_size == 0)) [
  | inl empty ↦ rw empty refl
  | inr more ↦ rw more refl
]

with_lock_lem :
    (lock : Bool) (body : Handler Ret) (o : Outcome) (d : Device)
    → body (locked d) ≡ some (unlocked (some o) d)
    → with_lock lock body (free d)
      ≡ some (unlocked (some (if lock then give_up (fail eintr) d else o)) d)
with_lock_lem true body o d h = refl
with_lock_lem false body o d h = h

-- `my_read` from what comes of its wait.
abbrev resumed : (lock_signal fault : Bool) → ℕ → Device → Enter → Option Outcome
resumed lock_signal fault count d e = elim e [
  | sleep ↦ none
  | interrupted ↦ some (give_up (fail eintr) d)
  | go blocking ↦
      some (if lock_signal then give_up (fail eintr) d else read_locked blocking fault count d)
]

-- What the wait comes to, from the mode and from whether there is a message.
abbrev entered : (plain waiting wait : Bool) → Enter
entered plain waiting wait =
    if plain then go false else if waiting then go true else if wait then interrupted else sleep

-- By the mode, and whether there is a message, both seen before the lock.
by_mode :
    (plain waiting wait lock fault : Bool) (count : ℕ) (d : Device)
    → (if plain
          then with_lock lock (do
            x ← look
            (if x.data_size == 0 then refuse (fail eagain) else read_message fault count))
          else wait_and_lock (λ _. waiting) wait lock (read_message fault count))
        (free d)
      ≡ some (unlocked (resumed lock fault count d (entered plain waiting wait)) d)
by_mode true waiting wait lock fault count d =
    with_lock_lem lock _ (read_locked false fault count d) d (read_unless_empty fault count d)
by_mode false true wait lock fault count d =
    with_lock_lem lock _ (read_locked true fault count d) d (read_message_lem fault count d)
by_mode false false true lock fault count d = refl
by_mode false false false lock fault count d = refl

write_steps_lem :
    (lock : Bool) (missing : ℕ) (src : List ℕ) (d : Device)
    → write_steps lock missing src (free d) ≡ some (unlocked (some (my_write lock missing src d)) d)
unfolding write_steps my_write
write_steps_lem true missing src d = refl
write_steps_lem false missing src d = elim (Bool-cases (missing == 0)) [
  | inl all ↦ rw all refl
  | inr some_left ↦ rw some_left refl
]

ioctl_steps_lem :
    (fault lock : Bool) (c : Cmd) (d : Device)
    → ioctl_steps fault lock c (free d) ≡ some (changed (my_ioctl fault lock c d))
unfolding ioctl_steps my_ioctl
ioctl_steps_lem fault true reset d = refl
ioctl_steps_lem fault false reset d = refl
ioctl_steps_lem true lock (set_blocking val) d = refl
ioctl_steps_lem false lock (set_blocking val) d = elim (Bool-cases (is_flag val)) [
  | inl flag ↦ rw flag (flagged lock)
  | inr odd ↦ rw odd refl
]
  where
    flagged :
        (signal : Bool)
        → with_lock signal
            (do change (λ x. record x { blocking_mode = val }); mutex_unlock; returns (ok 0))
            (free d)
          ≡ some (
              changed
                (if signal then (d, fail eintr) else (record d { blocking_mode = val }, ok 0)))
    flagged true = refl
    flagged false = refl
ioctl_steps_lem fault lock other d = refl

read_enter_lem :
    (wait : Bool) (d : Device)
    → read_enter wait d ≡ entered (is_zero d.blocking_mode) (ltb 0 d.data_size) wait
unfolding read_enter
read_enter_lem wait d = refl

read_steps_lem :
    (wait lock fault : Bool) (count : ℕ) (d : Device)
    → read_steps wait lock fault count (free d)
      ≡ some (unlocked (my_read wait lock fault count d) d)
unfolding read_steps my_read
read_steps_lem wait lock fault count d = elim (Bool-cases (is_zero d.blocking_mode)) [
  | inl plain ↦
      rw plain (by_mode true waiting wait lock fault count d)
      ∙ ap (λ p. some (unlocked (resumed lock fault count d (entered p waiting wait)) d))
          (sym plain)
      ∙ back
  | inr blocking ↦
      rw blocking (by_mode false waiting wait lock fault count d)
      ∙ ap (λ p. some (unlocked (resumed lock fault count d (entered p waiting wait)) d))
          (sym blocking)
      ∙ back
]
  where
    waiting : Bool
    waiting = ltb 0 d.data_size

    back :
        some
          (unlocked (resumed lock fault count d (entered (is_zero d.blocking_mode) waiting wait)) d)
        ≡ some (unlocked (resumed lock fault count d (read_enter wait d)) d)
    back = ap (λ e. some (unlocked (resumed lock fault count d e) d)) (sym (read_enter_lem wait d))

-- The handlers statement by statement, begun with the mutex free: on no path do they take it twice,
-- give it back when they do not hold it, sleep in the wait queue with it or change the message
-- without it. They end with the mutex free, errors and sleep included, and with what Fixed.Device
-- says, where all that is done under the mutex is one step: the device, the bytes handed out, the
-- return value and whether the readers are woken.
pub fixed_handlers_locked :
    (wait_signal lock_signal fault : Bool) (count missing : ℕ) (src : List ℕ) (c : Cmd) (d : Device)
    → (read_steps wait_signal lock_signal fault count (free d)
        ≡ some (unlocked (my_read wait_signal lock_signal fault count d) d))
      × (write_steps lock_signal missing src (free d)
          ≡ some (unlocked (some (my_write lock_signal missing src d)) d))
      × (ioctl_steps fault lock_signal c (free d) ≡ some (changed (my_ioctl fault lock_signal c d)))
fixed_handlers_locked wait_signal lock_signal fault count missing src c d = (
  read_steps_lem wait_signal lock_signal fault count d,
  write_steps_lem lock_signal missing src d,
  ioctl_steps_lem fault lock_signal c d,
)
