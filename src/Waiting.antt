-- ===== src/Waiting.antt =====
-- Processes that sleep in `wait_event_interruptible` until others make its condition true: the
-- readers of LKM/mutex_sleep_ioctl_exercise/fixed_device.c and of LKM/chrdev_sleepy. The kernel puts
-- a process on the queue before it tests the condition, so that the test and the sleep are one step.
use mathlib.Core.Path.{subst}
use linux_kernel_modules.Base.{
  ℕ, ◌≤◌, zero, suc, ◌+◌, ◌-◌, ◌<◌, ◌≡◌, refl, ◌∙◌, Bool, true, false, if◌then◌else◌, ◌⊎◌, inl, inr,
  arith, Bool-cases,
}

-- A device with one queue. `Act d e wakes`: an operation that does not wait takes the device from `d`
-- to `e`, and wakes the queue behind it or not; `Take d e`: so does a process behind its wait.
pub record Device : Type 1 where
  pub State : Type 0
  pub ready : State → Bool
  pub Act : State → State → Bool → Type 0
  pub Take : State → State → Type 0
  -- What makes the condition true wakes the queue.
  pub acts_wake :
      (d e : State) (wakes : Bool)
      → Act d e wakes
      → ready e ≡ true
      → (ready d ≡ true) ⊎ (wakes ≡ true)
  pub takes_keep : (d e : State) → Take d e → ready e ≡ true → ready d ≡ true

-- How many processes are about to test the condition, asleep, and behind the wait; and how many
-- have yet to wake the queue for what they did.
pub record System (dev : Device) : Type 0 where
  pub state : dev.State
  pub looking : ℕ
  pub asleep : ℕ
  pub through : ℕ
  pub waking : ℕ

module _ (dev : Device) where
  abbrev pub start : dev.State → System dev
  start d = record { state = d; looking = 0; asleep = 0; through = 0; waking = 0 }

  pub data Step (s : System dev) : System dev → Type 0 where
    begin : Step s (record s { looking = s.looking + 1 })
    pass :
        dev.ready s.state ≡ true
        → 0 < s.looking
        → Step s (record s { looking = s.looking - 1; through = s.through + 1 })
    sleep :
        dev.ready s.state ≡ false
        → 0 < s.looking
        → Step s (record s { looking = s.looking - 1; asleep = s.asleep + 1 })
    signal : 0 < s.asleep → Step s (record s { asleep = s.asleep - 1 })
    take :
        (e : dev.State)
        → dev.Take s.state e
        → 0 < s.through
        → Step s (record s { state = e; through = s.through - 1 })
    act :
        (e : dev.State) (wakes : Bool)
        → dev.Act s.state e wakes
        → Step s (record s { state = e; waking = if wakes then s.waking + 1 else s.waking })
    wake :
        0 < s.waking
        → Step s (record s { looking = s.looking + s.asleep; asleep = 0; waking = s.waking - 1 })

  pub data Steps (s : System dev) : System dev → Type 0 where
    here : Steps s s
    next : {t u : System dev} → Steps s t → Step t u → Steps s u

  -- Nobody sleeps on a true condition, unless a wake-up is under way.
  abbrev pub IsAwaited : System dev → Type 0
  IsAwaited s = (dev.ready s.state ≡ false) ⊎ (s.asleep ≡ 0) ⊎ (0 < s.waking)

  Step-IsAwaited : {s t : System dev} → Step s t → IsAwaited s → IsAwaited t
  Step-IsAwaited {s} begin h = h
  Step-IsAwaited {s} (pass r l) h = h
  Step-IsAwaited {s} (sleep r l) h = inl r
  Step-IsAwaited {s} (signal l) h = elim h [
    | inl r ↦ inl r
    | inr (inl none_left) ↦ inr (inl (omega arith))
    | inr (inr w) ↦ inr (inr w)
  ]
  Step-IsAwaited {s} (take e k l) h = elim (Bool-cases (dev.ready e)) [
    | inr not_ready ↦ inl not_ready
    | inl r ↦ elim h [ inl off ↦ let on = dev.takes_keep s.state e k r in cc | inr rest ↦ inr rest ]
  ]
  Step-IsAwaited {s} (act e true a) h = inr (inr (omega arith))
  Step-IsAwaited {s} (act e false a) h = elim (Bool-cases (dev.ready e)) [
    | inr not_ready ↦ inl not_ready
    | inl r ↦ elim (dev.acts_wake s.state e false a r) [
      | inr woken ↦ cc
      | inl before ↦ elim h [ inl off ↦ cc | inr rest ↦ inr rest ]
    ]
  ]
  Step-IsAwaited {s} (wake l) h = inr (inl refl)

  pub Steps-IsAwaited : {s t : System dev} → Steps s t → IsAwaited s → IsAwaited t
  Steps-IsAwaited here h = h
  Steps-IsAwaited (next r st) h = Step-IsAwaited st (Steps-IsAwaited r h)

  -- Of these steps only wake-ups that were under way, and passes of processes whose test of the
  -- condition holds; `wakes` and `passes` count them. Neither begins a call, brings a signal or changes
  -- the device.
  pub data Quiet (s : System dev) : (wakes passes : ℕ) → System dev → Type 0 where
    rests : Quiet s 0 0 s
    wakes :
        {w p : ℕ} {t : System dev}
        → Quiet s w p t
        → 0 < t.waking
        → Quiet s
            (suc w)
            p
            (record t { looking = t.looking + t.asleep; asleep = 0; waking = t.waking - 1 })
    passes :
        {w p : ℕ} {t : System dev}
        → Quiet s w p t
        → dev.ready t.state ≡ true
        → 0 < t.looking
        → Quiet s w (suc p) (record t { looking = t.looking - 1; through = t.through + 1 })

  pub Quiet-Steps : {s t : System dev} {w p : ℕ} → Quiet s w p t → Steps s t
  Quiet-Steps rests = here
  Quiet-Steps (wakes q l) = next (Quiet-Steps q) (wake l)
  Quiet-Steps (passes q r l) = next (Quiet-Steps q) (pass r l)

  -- In all of them the device stays, and so does the number of processes in a call.
  pub record IsKept (s t : System dev) (w : ℕ) (p : ℕ) : Type 0 where
    pub state : t.state ≡ s.state
    pub calls : t.looking + t.asleep + t.through ≡ s.looking + s.asleep + s.through
    pub woke : t.waking + w ≡ s.waking
    pub passed : t.through ≡ s.through + p

  pub Quiet-IsKept : {s t : System dev} {w p : ℕ} → Quiet s w p t → IsKept s t w p
  Quiet-IsKept rests = record {
    state = refl;
    calls = refl;
    woke = omega arith;
    passed = omega arith;
  }
  Quiet-IsKept (wakes q l) =
      let k = Quiet-IsKept q in
      record {
        state = k.state;
        calls = omega (arith, k.calls);
        woke = omega (arith, k.woke);
        passed = k.passed;
      }
  Quiet-IsKept (passes q r l) =
      let k = Quiet-IsKept q in
      record {
        state = k.state;
        calls = omega (arith, k.calls);
        woke = k.woke;
        passed = omega (arith, k.passed);
      }

  -- Everybody in a call has been let through the wait, by one wake-up at most.
  pub record AllThrough (s t : System dev) : Type 0 where
    pub woken : ℕ
    pub steps : Quiet s woken (s.looking + s.asleep) t
    pub once : woken ≤ 1
    pub state : t.state ≡ s.state
    pub looking : t.looking ≡ 0
    pub asleep : t.asleep ≡ 0
    pub through : t.through ≡ s.through + s.looking + s.asleep

  -- The processes that look pass one by one.
  pass_all :
      (n : ℕ) {w p : ℕ} {s t : System dev}
      → Quiet s w p t
      → t.looking ≡ n
      → dev.ready t.state ≡ true
      → (u : System dev) × Quiet s w (n + p) u × (u.looking ≡ 0) × (u.asleep ≡ t.asleep)
  pass_all zero {w} {p} {s} {t} q e ready = (t, subst (λ k. Quiet s w k t) (omega arith) q, e, refl)
  pass_all (suc n) {w} {p} {s} {t} q e ready =
      let (u, steps, looking, asleep) =
        pass_all n (passes q ready (omega arith)) (omega arith) ready in
      (u, subst (λ k. Quiet s w k u) (omega arith) steps, looking, asleep)

  all_passed :
      {s t : System dev} (w : ℕ)
      → w ≤ 1
      → Quiet s w 0 t
      → t.asleep ≡ 0
      → t.looking ≡ s.looking + s.asleep
      → dev.ready t.state ≡ true
      → (u : System dev) × AllThrough s u
  all_passed {s} {t} w once q awake e ready =
      let (u, steps, looking, asleep) = pass_all (s.looking + s.asleep) q e ready in
      let all : Quiet s w (s.looking + s.asleep) u =
        subst (λ k. Quiet s w k u) (omega arith) steps in
      let k = Quiet-IsKept all in
      (
        u,
        record {
          woken = w;
          steps = all;
          once = once;
          state = k.state;
          looking = looking;
          asleep = asleep ∙ awake;
          through = omega (arith, k.passed);
        },
      )

  pub all_get_through :
      (s : System dev) → IsAwaited s → dev.ready s.state ≡ true → (t : System dev) × AllThrough s t
  all_get_through s (inl off) ready = cc
  all_get_through s (inr (inl none_asleep)) ready =
      all_passed 0 (omega arith) rests none_asleep (omega arith) ready
  all_get_through s (inr (inr pending)) ready =
      all_passed 1 (omega arith) (wakes rests pending) refl refl ready
