-- ===== src/Gold/Bytes.antt =====
-- Any number of processes on one gold device, byte by byte: each round of a loop of gold_read and
-- gold_write is a step, between which other processes test their conditions, which read `size`
-- without the mutex, sleep, wake up, are interrupted and wait for the mutex.
pub mod Atomic
pub mod Kept
pub mod Rounds
pub mod Section
use linux_kernel_modules.Base.{
  update, ℕ, zero, suc, ◌+◌, ◌≡◌, ◌≢◌, refl, sym, ap, ◌∙◌, Bool, true, false, ◌&&◌, Option, none,
  some, List, [], ◌∷◌, ◌++◌, ◌==◌, if◌then◌else◌, get_or, arith, Ret, ok, fail, efault, append-nil,
  append_assoc, Bool-cases, ◌⊎◌, inl, inr, ==_iff,
}
use linux_kernel_modules.Gold.Device.{
  GoldDev, fresh, Enter, go, sleep, leave, Outcome, Wake, nobody, readers, writers, read_locked,
  write_locked, read_loop, write_loop, buffer_empty, buffer_full, advance_tail, store_head, cleared,
  cons_out,
}
use linux_kernel_modules.Gold.Inv.{
  IsValid, contents, advance_tail-IsValid, store_head-IsValid, contents-advance_tail,
  contents-store_head,
}
use linux_kernel_modules.Gold.Threads.{Request, reading, writing, enter}

-- Where a process stands: outside, on a wait queue, before the mutex, or at the head of a loop, with
-- the bytes that are left and the number of those copied.
pub data Pc : Type 0 where
  idle : Pc
  sleeping ready : Request → Pc
  reads : (fault : ℕ → Bool) (left copied : ℕ) → Pc
  writes : (fault : ℕ → Bool) (src : List ℕ) (copied : ℕ) → Pc

-- `holder`: who holds the mutex. `accepted`: the bytes that writes have stored, without those that a
-- reset wiped out; `received`: those handed to readers. `promised` is what Gold.Device says of the section that was begun
-- last, from the state that it found, and `before` what readers had received by then.
pub record System : Type 0 where
  pub dev : GoldDev
  pub pc : ℕ → Pc
  pub holder : Option ℕ
  pub accepted : List ℕ
  pub received : List ℕ
  pub promised : Outcome
  pub before : List ℕ

abbrev pub after : Request → Enter → Pc
after r go = ready r
after r sleep = sleeping r
after r (leave ret) = idle

-- A nonblocking call that finds nothing to do under the mutex returns -EAGAIN.
abbrev pub refused : Request → GoldDev → Bool
refused (reading nonblocking count) d = nonblocking && buffer_empty d
refused (writing nonblocking src) d = nonblocking && buffer_full d

abbrev pub begun : (ℕ → Bool) → Request → Pc
begun fault (reading nonblocking count) = reads fault count 0
begun fault (writing nonblocking src) = writes fault src 0

abbrev pub promise : (ℕ → Bool) → Request → GoldDev → Outcome
promise fault (reading nonblocking count) d = read_locked nonblocking fault count d
promise fault (writing nonblocking src) d = write_locked nonblocking fault src d

-- How a loop ends at its head, where it does: the return value, and the queue woken.
unfoldable pub ending : Pc → GoldDev → Option (Ret × Wake)
unfolding buffer_empty buffer_full
ending idle d = none
ending (sleeping r) d = none
ending (ready r) d = none
ending (reads fault zero copied) d = some (ok copied, writers)
ending (reads fault (suc left) copied) d =
    if buffer_empty d
    then some (ok copied, writers)
    else if fault copied
    then some (fail efault, nobody)
    else none
ending (writes fault [] copied) d = some (ok copied, readers)
ending (writes fault (c ∷ src) copied) d =
    if buffer_full d
    then some (ok copied, readers)
    else if fault copied
    then some (fail efault, nobody)
    else none

pub data Step (s : System) : System → Type 0 where
  -- A call begins, or a sleeper looks again: the condition is tested.
  call :
      (i : ℕ) (r : Request) (signal : Bool)
      → s.pc i ≡ idle
      → Step s (record s { pc = update s.pc i (after r (enter signal r s.dev)) })
  look :
      (i : ℕ) (r : Request) (signal : Bool)
      → s.pc i ≡ sleeping r
      → Step s (record s { pc = update s.pc i (after r (enter signal r s.dev)) })
  -- A signal comes before the mutex is free.
  interrupt :
      (i : ℕ) (r : Request) → s.pc i ≡ ready r → Step s (record s { pc = update s.pc i idle })
  refuse :
      (i : ℕ) (r : Request)
      → s.pc i ≡ ready r
      → s.holder ≡ none
      → refused r s.dev ≡ true
      → Step s (record s { pc = update s.pc i idle })
  lock :
      (i : ℕ) (r : Request) (fault : ℕ → Bool)
      → s.pc i ≡ ready r
      → s.holder ≡ none
      → refused r s.dev ≡ false
      → Step s (record s {
        pc = update s.pc i (begun fault r);
        holder = some i;
        promised = promise fault r s.dev;
        before = s.received;
      })
  -- A round of the loop of `gold_read`, and of the one of `gold_write`.
  move :
      (i : ℕ) (fault : ℕ → Bool) (left copied : ℕ)
      → s.pc i ≡ reads fault (suc left) copied
      → buffer_empty s.dev ≡ false
      → fault copied ≡ false
      → Step s (record s {
        dev = advance_tail s.dev;
        pc = update s.pc i (reads fault left (copied + 1));
        received = s.received ++ (get_or s.dev.buffer s.dev.tail 0 ∷ []);
      })
  store :
      (i : ℕ) (fault : ℕ → Bool) (c : ℕ) (src : List ℕ) (copied : ℕ)
      → s.pc i ≡ writes fault (c ∷ src) copied
      → buffer_full s.dev ≡ false
      → fault copied ≡ false
      → Step s (record s {
        dev = store_head c s.dev;
        pc = update s.pc i (writes fault src (copied + 1));
        accepted = s.accepted ++ (c ∷ []);
      })
  -- The loop is left and the mutex given back.
  unlock :
      (i : ℕ) (ret : Ret) (wake : Wake)
      → ending (s.pc i) s.dev ≡ some (ret, wake)
      → Step s (record s { pc = update s.pc i idle; holder = none })
  -- IOCTL_RESET: what was not read yet is gone.
  reset : s.holder ≡ none → Step s (record s { dev = cleared s.dev; accepted = s.received })

abbrev pub no_outcome : Outcome
no_outcome = record { dev = fresh; out = []; ret = ok 0; wake = nobody }

abbrev pub start : System
start = record {
  dev = fresh;
  pc = λ i. idle;
  holder = none;
  accepted = [];
  received = [];
  promised = no_outcome;
  before = [];
}

pub data Reach : System → Type 0 where
  here : Reach start
  next : {s t : System} → Reach s → Step s t → Reach t
