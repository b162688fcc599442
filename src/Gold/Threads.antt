-- ===== src/Gold/Threads.antt =====
-- Any number of processes on one gold device, interleaved at its lock. A handler's part under the
-- mutex is one step; before it the handler tests its condition, sleeps and is woken, and between
-- the wake-up and the lock others may run.
pub mod Crowd
pub mod Ledger
use linux_kernel_modules.Base.{
  update, ℕ, ◌+◌, ◌∷◌, zero, suc, ◌-◌, ◌≡◌, ◌≢◌, ◌≤◌, refl, sym, ap, ◌∙◌, Bool, true, false, List,
  [], ◌++◌, ◌==◌, take, length, arith, Ret, ok, fail, append-nil, append_assoc, drop, length-drop,
  length-take, length-append, take-min, min,
}
use linux_kernel_modules.Gold.Device.{
  GoldDev, fresh, Enter, go, sleep, leave, Outcome, read_enter, write_enter, read_locked,
  write_locked, gold_ioctl, Cmd, reset, get_bufsize, other, read_loop, wait_event_interruptible,
  buffer_empty,
}
use linux_kernel_modules.Gold.Queue.{seen}
use linux_kernel_modules.Gold.Inv.{IsValid, contents, length-contents}
use linux_kernel_modules.Gold.Reading.{read_locked-ReadDone, signals, mode}
use linux_kernel_modules.Gold.Writing.{WriteReturn, write_locked-WriteDone}
use linux_kernel_modules.Delivery.{InOrder, nothing, InOrder-append, InOrder-whole}
use linux_kernel_modules.Gold.Refine.{calm, view, view-read_loop, gold_ioctl-IsValid}

-- A call of read(2) or write(2), on a file opened with or without O_NONBLOCK.
pub data Request : Type 0 where
  reading : (nonblocking : Bool) (count : ℕ) → Request
  writing : (nonblocking : Bool) (src : List ℕ) → Request

-- Where a process stands: outside the device, on a wait queue, or about to take the mutex.
pub data Pc : Type 0 where
  idle : Pc
  sleeping ready : Request → Pc

-- `accepted`: the bytes that writes have stored, in order; `received`: the bytes that reads have handed
-- over and counted in what they returned, in order; `mishaps`: how many resets there were, and reads
-- that handed bytes over and then returned -EFAULT.
pub record System : Type 0 where
  pub dev : GoldDev
  pub pc : ℕ → Pc
  pub accepted : List ℕ
  pub received : List ℕ
  pub mishaps : ℕ

abbrev pub enter : Bool → Request → GoldDev → Enter
enter signal (reading nonblocking count) d = read_enter nonblocking signal d
enter signal (writing nonblocking src) d = write_enter nonblocking signal d

abbrev pub after : Request → Enter → Pc
after r go = ready r
after r sleep = sleeping r
after r (leave ret) = idle

-- The bytes that a write has stored: those it returns the number of or, where it fails, those by which
-- the ring has grown.
abbrev pub stored : Ret → (grown : ℕ) → List ℕ → List ℕ
stored (ok n) grown src = take n src
stored (fail e) grown src = take grown src

abbrev pub counted : Ret → (out : List ℕ) → List ℕ
counted (ok n) out = out
counted (fail e) out = []

-- Whether a read fails behind bytes that it has handed over.
abbrev pub uncounted : Ret → (out : List ℕ) → ℕ
uncounted (ok n) out = 0
uncounted (fail e) [] = 0
uncounted (fail e) (x ∷ out) = 1

-- The part of the handler under the mutex, with the histories.
abbrev pub locked : (ℕ → Bool) → Request → System → System
locked fault (reading nonblocking count) s =
    let o = read_locked nonblocking fault count s.dev in
    record s {
      dev = o.dev;
      received = s.received ++ counted o.ret o.out;
      mishaps = s.mishaps + uncounted o.ret o.out;
    }
locked fault (writing nonblocking src) s =
    let o = write_locked nonblocking fault src s.dev in
    record s { dev = o.dev; accepted = s.accepted ++ stored o.ret (o.dev.size - s.dev.size) src }

abbrev pub wipes : Cmd → ℕ
wipes reset = 1
wipes get_bufsize = 0
wipes other = 0

pub data Step (s : System) : System → Type 0 where
  -- A call begins: it tests its condition.
  call :
      (i : ℕ) (r : Request) (signal : Bool)
      → s.pc i ≡ idle
      → Step s (record s { pc = update s.pc i (after r (enter signal r s.dev)) })
  -- A sleeper looks again, for a wake-up or a signal.
  look :
      (i : ℕ) (r : Request) (signal : Bool)
      → s.pc i ≡ sleeping r
      → Step s (record s { pc = update s.pc i (after r (enter signal r s.dev)) })
  -- It takes the mutex and runs to its return.
  lock :
      (i : ℕ) (r : Request) (fault : ℕ → Bool)
      → s.pc i ≡ ready r
      → Step s (record (locked fault r s) { pc = update s.pc i idle })
  -- A signal arrives in `mutex_lock_interruptible`.
  interrupt :
      (i : ℕ) (r : Request) → s.pc i ≡ ready r → Step s (record s { pc = update s.pc i idle })
  -- An ioctl; with its signal RESET changes nothing, and is `interrupt`.
  command :
      (fault : Bool) (cmd : Cmd)
      → Step s (record s {
        dev = (gold_ioctl false fault cmd s.dev).dev;
        mishaps = s.mishaps + wipes cmd;
      })

abbrev pub start : System
start = record { dev = fresh; pc = λ i. idle; accepted = []; received = []; mishaps = 0 }

pub data Reach : System → Type 0 where
  here : Reach start
  next : {s t : System} → Reach s → Step s t → Reach t
