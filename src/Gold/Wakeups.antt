-- ===== src/Gold/Wakeups.antt =====
-- The wait queues of LKM/mutex_sleep_ioctl_exercise/gold_device.c: a sleeper runs again when it is
-- woken, and only then. What a call does under the mutex and its wake-up behind the mutex are two
-- steps, between which others may run.
pub mod Announced
pub mod NoLoss
pub mod Progress
use linux_kernel_modules.Base.{
  update, ℕ, ◌+◌, ◌≡◌, ◌≢◌, refl, sym, ap, ◌∙◌, Bool, true, false, not, List, [], ◌++◌, ◌==◌,
  if◌then◌else◌, length, length-append, ◌⊎◌, inl, inr, Bool-cases, ==_iff, arith, Ret, ok, fail,
  eagain, eintr, efault,
}
use mathlib.Core.Path.{subst}
use linux_kernel_modules.Gold.Device.{
  GoldDev, fresh, Enter, go, sleep, leave, Outcome, Wake, nobody, readers, writers, buf_size,
  cleared, read_locked, write_locked, gold_ioctl, Cmd, reset, read_enter, write_enter,
  wait_event_interruptible, buffer_empty, buffer_full,
}
use linux_kernel_modules.Gold.Inv.{IsValid, contents, length-contents}
use linux_kernel_modules.Gold.Reading.{ReadDone, ReadReturn, read_locked-ReadDone, mode, signals}
use linux_kernel_modules.Gold.Writing.{WriteDone, WriteReturn, write_locked-WriteDone}
use linux_kernel_modules.Gold.Refine.{calm}
use linux_kernel_modules.Gold.Threads.{Request, reading, writing, enter}

-- Where a process stands: outside, asleep on its queue, woken, about to take the mutex, or behind the
-- mutex and about to wake a queue.
pub data Pc : Type 0 where
  idle : Pc
  sleeping woken ready : Request → Pc
  waking : Wake → Pc

pub record System : Type 0 where
  pub dev : GoldDev
  pub pc : ℕ → Pc

abbrev pub after : Request → Enter → Pc
after r go = ready r
after r sleep = sleeping r
after r (leave ret) = idle

-- The queue that a request waits on.
abbrev pub queue : Request → Wake
queue (reading nonblocking count) = readers
queue (writing nonblocking src) = writers

-- `wake_up_interruptible` of a queue, for one process.
abbrev pub woken_by : Wake → Pc → Pc
woken_by readers (sleeping (reading nonblocking count)) = woken (reading nonblocking count)
woken_by writers (sleeping (writing nonblocking src)) = woken (writing nonblocking src)
woken_by nobody (sleeping r) = sleeping r
woken_by readers (sleeping (writing nonblocking src)) = sleeping (writing nonblocking src)
woken_by writers (sleeping (reading nonblocking count)) = sleeping (reading nonblocking count)
woken_by w idle = idle
woken_by w (woken r) = woken r
woken_by w (ready r) = ready r
woken_by w (waking v) = waking v

-- The part of a handler under the mutex, of a process whose memory never faults.
abbrev pub locked : Request → GoldDev → Outcome
locked (reading nonblocking count) d = read_locked nonblocking calm count d
locked (writing nonblocking src) d = write_locked nonblocking calm src d

pub data Step (s : System) : System → Type 0 where
  -- A call begins.
  call :
      (i : ℕ) (r : Request) (signal : Bool)
      → s.pc i ≡ idle
      → Step s (record s { pc = update s.pc i (after r (enter signal r s.dev)) })
  -- A process that was woken tests its condition again.
  look :
      (i : ℕ) (r : Request) (signal : Bool)
      → s.pc i ≡ woken r
      → Step s (record s { pc = update s.pc i (after r (enter signal r s.dev)) })
  -- A signal wakes a sleeper.
  signalled :
      (i : ℕ) (r : Request)
      → s.pc i ≡ sleeping r
      → Step s (record s { pc = update s.pc i (after r (enter true r s.dev)) })
  -- The part under the mutex.
  lock :
      (i : ℕ) (r : Request)
      → s.pc i ≡ ready r
      → Step s (record s {
        dev = (locked r s.dev).dev;
        pc = update s.pc i (waking (locked r s.dev).wake);
      })
  -- A signal arrives in `mutex_lock_interruptible`.
  interrupt :
      (i : ℕ) (r : Request) → s.pc i ≡ ready r → Step s (record s { pc = update s.pc i idle })
  -- The wake-up.
  wake :
      (i : ℕ) (w : Wake)
      → s.pc i ≡ waking w
      → Step s (record s { pc = update (λ j. woken_by w (s.pc j)) i idle })
  -- An ioctl, to its wake-up.
  command :
      (i : ℕ) (fault : Bool) (cmd : Cmd)
      → s.pc i ≡ idle
      → Step s (record s {
        dev = (gold_ioctl false fault cmd s.dev).dev;
        pc = update s.pc i (waking (gold_ioctl false fault cmd s.dev).wake);
      })

abbrev pub start : System
start = record { dev = fresh; pc = λ i. idle }

pub data Reach : System → Type 0 where
  here : Reach start
  next : {s t : System} → Reach s → Step s t → Reach t

-- The condition that a request waits for does not hold.
abbrev pub Blocked : Request → GoldDev → Type 0
Blocked (reading nonblocking count) d = d.size ≡ 0
Blocked (writing nonblocking src) d = d.size ≡ buf_size

-- A wake-up of the queue is on its way.
abbrev pub Pending : Wake → System → Type 0
Pending w s = (j : ℕ) × (s.pc j ≡ waking w)
