-- ===== src/Gold/Wakeups/Progress.antt =====
-- A sleeper of the gold device, LKM/mutex_sleep_ioctl_exercise/gold_device.c, gets on.
use linux_kernel_modules.Base.{
  update, ℕ, ◌≡◌, refl, sym, ap, ◌∙◌, false, ◌==◌, inl, inr, Bool-cases, ==_iff, arith,
}
use linux_kernel_modules.Gold.Device.{
  GoldDev, Wake, read_enter, write_enter, wait_event_interruptible, buffer_empty, buffer_full,
}
use linux_kernel_modules.Gold.Threads.{Request, reading, writing, enter}
use linux_kernel_modules.Gold.Wakeups.{
  Pc, idle, sleeping, woken, ready, waking, System, after, queue, woken_by, Step, look, wake, Reach,
  Blocked,
}
use linux_kernel_modules.Gold.Wakeups.NoLoss.{at_self, Reach-IsLossless}

woken_by-queue : (r : Request) → woken_by (queue r) (sleeping r) ≡ woken r
woken_by-queue (reading nb count) = refl
woken_by-queue (writing nb src) = refl

-- A process whose condition holds goes on to take the mutex.
enter-ready : (r : Request) (d : GoldDev) → ¬ Blocked r d → after r (enter false r d) ≡ ready r
unfolding read_enter write_enter wait_event_interruptible buffer_empty buffer_full
enter-ready (reading nb count) d h = ground arith
enter-ready (writing nb src) d h = ground arith

distinct :
    (pc : ℕ → Pc) (j i : ℕ) {w : Wake} {r : Request}
    → pc j ≡ waking w
    → pc i ≡ sleeping r
    → (j == i) ≡ false
distinct pc j i {w} {r} owes asleep = elim (Bool-cases (j == i)) [
  | inl same ↦
      let both : waking w ≡ sleeping r = sym owes ∙ ap pc ((==_iff j i).0 same) ∙ asleep in cc
  | inr apart ↦ apart
]

-- A process `j` wakes the queue of `r`.
abbrev pub roused : ℕ → Request → System → System
roused j r s = record s { pc = update (λ k. woken_by (queue r) (s.pc k)) j idle }

-- A woken process tests its condition again, without a signal.
abbrev pub looked : ℕ → Request → System → System
looked i r s = record s { pc = update s.pc i (after r (enter false r s.dev)) }

-- In every state that processes whose memory never faults can reach: for a sleeper whose condition has
-- come to hold, there is another process that stands right before a wake-up of the sleeper's queue.
-- This wake-up and then, without a signal, the sleeper's own test of the condition are steps that can
-- be taken; the first leaves it woken, the second before the mutex, the device as it was.
pub sleeper_gets_through :
    {s : System} (i : ℕ) (r : Request)
    → Reach s
    → s.pc i ≡ sleeping r
    → ¬ Blocked r s.dev
    → (j : ℕ) × (s.pc j ≡ waking (queue r))
      × ((j == i) ≡ false)
      × Step s (roused j r s)
      × ((roused j r s).pc i ≡ woken r)
      × Step (roused j r s) (looked i r (roused j r s))
      × ((looked i r (roused j r s)).pc i ≡ ready r)
      × ((looked i r (roused j r s)).dev ≡ s.dev)
sleeper_gets_through {s} i r reach asleep free =
    elim ((Reach-IsLossless reach).sleepers i r asleep) [
      | inl blocked ↦ absurd (free blocked)
      | inr (j, owes) ↦
          let apart : (j == i) ≡ false = distinct s.pc j i owes asleep in
          let up : (roused j r s).pc i ≡ woken r = rw (apart, asleep) (woken_by-queue r) in
          (
            j,
            owes,
            apart,
            wake j (queue r) owes,
            up,
            look i r false up,
            at_self (roused j r s) i (after r (enter false r s.dev)) ∙ enter-ready r s.dev free,
            refl,
          )
    ]
