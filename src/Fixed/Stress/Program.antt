-- ===== src/Fixed/Stress/Program.antt =====
-- LKM/mutex_sleep_ioctl_exercise/stress_test.c as a whole, on the fixed device: `main` starts four
-- writers, four readers and the ioctl thread, and waits for them. The device is at hand, and the
-- memory of the program never faults; no signal comes.
use linux_kernel_modules.Base.{
  ℕ, suc, ◌-◌, ◌<◌, ◌≡◌, Bool, true, false, List, [], ◌∷◌, ◌++◌, map, ltb, if◌then◌else◌, pos,
}
use linux_kernel_modules.Fixed.Device.{
  Device, Enter, go, sleep, interrupted, fresh, read_enter, read_locked, my_write, my_ioctl, reset,
  set_blocking,
}
use linux_kernel_modules.Fixed.Stress.{max_msg, writer_message}

abbrev pub num_iter : ℕ
num_iter = 10

-- A writer: its number, the rounds still to begin, and whether `write` has yet to wake the readers.
pub record Writer : Type 0 where
  pub id : ℕ
  pub rounds : ℕ
  pub waking : Bool

-- Where a reader stands: between its calls, asleep, woken, or behind the wait, having seen the
-- blocking mode or not.
pub data Phase : Type 0 where
  idle asleep woken : Phase
  through : (blocking : Bool) → Phase

pub record Reader : Type 0 where
  pub rounds : ℕ
  pub phase : Phase

-- The ioctl thread: the rounds still to begin, and whether this one goes on to a reset.
pub record Control : Type 0 where
  pub rounds : ℕ
  pub resetting : Bool

pub record System : Type 0 where
  pub dev : Device
  pub writers : List Writer
  pub readers : List Reader
  pub control : Control

abbrev pub message_of : Writer → List ℕ
message_of w = writer_message w.id (num_iter - w.rounds)

abbrev pub entered : Enter → Phase
entered (go blocking) = through blocking
entered sleep = asleep
entered interrupted = idle

-- A woken reader tests the condition again, but not the mode.
abbrev pub looked : Device → Phase
looked d = if ltb 0 d.data_size then through true else asleep

abbrev pub rouse_phase : Phase → Phase
rouse_phase asleep = woken
rouse_phase idle = idle
rouse_phase woken = woken
rouse_phase (through blocking) = through blocking

abbrev pub rouse : Reader → Reader
rouse r = record r { phase = rouse_phase r.phase }

pub data Step (s : System) : System → Type 0 where
  -- `writer_thread`: `write`, up to the wake-up.
  write :
      (before after : List Writer) (w : Writer)
      → s.writers ≡ before ++ w ∷ after
      → w.waking ≡ false
      → 0 < w.rounds
      → Step s (record s {
        dev = (my_write false 0 (message_of w) s.dev).dev;
        writers =
            before
            ++ record w {
              rounds = w.rounds - 1;
              waking = (my_write false 0 (message_of w) s.dev).wake;
            }
              ∷ after;
      })
  wake :
      (before after : List Writer) (w : Writer)
      → s.writers ≡ before ++ w ∷ after
      → w.waking ≡ true
      → Step s (record s {
        writers = before ++ record w { waking = false } ∷ after;
        readers = map rouse s.readers;
      })
  -- `reader_thread`: `read`, up to its sleep or its lock; the test of a woken reader; the rest.
  begin :
      (before after : List Reader) (r : Reader)
      → s.readers ≡ before ++ r ∷ after
      → r.phase ≡ idle
      → 0 < r.rounds
      → Step s (record s {
        readers =
            before
            ++ record { rounds = r.rounds - 1; phase = entered (read_enter false s.dev) } ∷ after;
      })
  look :
      (before after : List Reader) (r : Reader)
      → s.readers ≡ before ++ r ∷ after
      → r.phase ≡ woken
      → Step s (record s { readers = before ++ record r { phase = looked s.dev } ∷ after })
  take :
      (before after : List Reader) (r : Reader) (blocking : Bool)
      → s.readers ≡ before ++ r ∷ after
      → r.phase ≡ through blocking
      → Step s (record s {
        dev = (read_locked blocking false max_msg s.dev).dev;
        readers = before ++ record r { phase = idle } ∷ after;
      })
  -- `ioctl_thread`: the mode, then perhaps a reset.
  mode :
      (m : ℕ) (also_reset : Bool)
      → m < 2
      → s.control.resetting ≡ false
      → 0 < s.control.rounds
      → Step s (record s {
        dev = (my_ioctl false false (set_blocking (pos m)) s.dev).0;
        control = record { rounds = s.control.rounds - 1; resetting = also_reset };
      })
  wipe :
      s.control.resetting ≡ true
      → Step s (record s {
        dev = (my_ioctl false false reset s.dev).0;
        control = record s.control { resetting = false };
      })

abbrev pub writer : ℕ → Writer
writer id = record { id = id; rounds = num_iter; waking = false }

abbrev pub reader : Reader
reader = record { rounds = num_iter; phase = idle }

-- `main`, once the threads are started.
abbrev pub start : System
start = record {
  dev = fresh;
  writers = writer 0 ∷ writer 1 ∷ writer 2 ∷ writer 3 ∷ [];
  readers = reader ∷ reader ∷ reader ∷ reader ∷ [];
  control = record { rounds = num_iter; resetting = false };
}

-- A run of `n` steps.
pub data Run (s : System) : ℕ → System → Type 0 where
  here : Run s 0 s
  next : {n : ℕ} {t u : System} → Run s n t → Step t u → Run s (suc n) u
