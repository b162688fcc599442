-- ===== src/Mutex.antt =====
-- Handlers statement by statement, with the mutex they take, for LKM/mutex_sleep_ioctl_exercise. A
-- program stops (`none`) where it breaks the discipline of the lock: when it takes the mutex that it
-- holds, gives back one that it does not hold, sleeps in a wait queue while it holds it, or touches
-- the shared state without it. The condition of a wait is tested without it, as the code does.
use linux_kernel_modules.Base.{
  Bool, true, false, Option, none, some, List, [], ◌∷◌, ◌++◌, if◌then◌else◌, ℕ, Ret, fail, eintr,
}

-- The mutex, the state that it protects, the bytes handed to user memory, and the queues woken.
pub record World (S W : Type 0) : Type 0 where
  pub held : Bool
  pub dev : S
  pub out : List ℕ
  pub woken : List W

abbrev pub free : {S W : Type 0} → S → World S W
free d = record { held = false; dev = d; out = []; woken = [] }

abbrev pub M : (S W A : Type 0) → Type 0
M S W A = World S W → Option (A × World S W)

-- What `wait_event_interruptible` comes to.
pub data Wait : Type 0 where
  passed interrupted asleep : Wait

module _ {S W : Type 0} where
  abbrev pub pure : {A : Type 0} → A → M S W A
  pure a w = some (a, w)

  infixl 5 ◌>>=◌ ◌>>◌
  abbrev pub ◌>>=◌ : {A B : Type 0} → M S W A → (A → M S W B) → M S W B
  ◌>>=◌ m f w = elim (m w) [ none ↦ none | some (a, w') ↦ f a w' ]

  abbrev pub ◌>>◌ : {B : Type 0} → M S W (Unit {0}) → M S W B → M S W B
  m >> k = m >>= λ _. k

  abbrev pub mutex_lock : M S W (Unit {0})
  mutex_lock w = if w.held then none else some (tt, record w { held = true })

  -- Whether a signal came instead.
  abbrev pub mutex_lock_interruptible : (signal : Bool) → M S W Bool
  mutex_lock_interruptible signal w =
      if w.held
      then none
      else if signal
      then some (true, w)
      else some (false, record w { held = true })

  abbrev pub mutex_unlock : M S W (Unit {0})
  mutex_unlock w = if w.held then some (tt, record w { held = false }) else none

  abbrev pub wait_event_interruptible : (S → Bool) → (signal : Bool) → M S W Wait
  wait_event_interruptible condition signal w =
      if w.held
      then none
      else if condition w.dev
      then some (passed, w)
      else if signal
      then some (interrupted, w)
      else some (asleep, w)

  -- The state, read and changed under the lock.
  abbrev pub look : M S W S
  look w = if w.held then some (w.dev, w) else none

  abbrev pub change : (S → S) → M S W (Unit {0})
  change f w = if w.held then some (tt, record w { dev = f w.dev }) else none

  -- The state read without the lock.
  abbrev pub peek : M S W S
  peek w = some (w.dev, w)

  abbrev pub hand_out : List ℕ → M S W (Unit {0})
  hand_out bytes w = some (tt, record w { out = w.out ++ bytes })

  abbrev pub wake_up : W → M S W (Unit {0})
  wake_up queue w = some (tt, record w { woken = queue ∷ w.woken })

  -- What a handler comes to: `none` while it sleeps.
  abbrev pub returns : {A : Type 0} → A → M S W (Option A)
  returns r = pure (some r)

  -- The lock is given back before the handler returns.
  abbrev pub refuse : {A : Type 0} → A → M S W (Option A)
  refuse r = do mutex_unlock; returns r

  -- `if (mutex_lock_interruptible(...)) return -EINTR;` before what needs the lock.
  abbrev pub with_lock : (signal : Bool) → M S W (Option Ret) → M S W (Option Ret)
  with_lock signal body = do
    came ← mutex_lock_interruptible signal
    (if came then returns (fail eintr) else body)

  -- `if (wait_event_interruptible(...)) return -EINTR;`, and the lock behind it.
  abbrev pub wait_and_lock :
      (S → Bool) → (wait_signal lock_signal : Bool) → M S W (Option Ret) → M S W (Option Ret)
  wait_and_lock condition wait_signal lock_signal body = do
    wait ← wait_event_interruptible condition wait_signal
    (elim wait [
      | asleep ↦ pure none
      | interrupted ↦ returns (fail eintr)
      | passed ↦ with_lock lock_signal body
    ])

abbrev pub Handler : (S W A : Type 0) → Type 0
Handler S W A = M S W (Option A)
