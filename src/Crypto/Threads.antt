-- ===== src/Crypto/Threads.antt =====
-- The threads of LKM/crypto_challenge/crypto_challenge.c, interleaved: the workers (`worker_fn`), the
-- control thread (`control_fn`) and the sampling timer (`sample_fn`).
pub mod Invariant
pub mod Finish
pub mod Shown
use linux_kernel_modules.Base.{
  ℕ, ◌+◌, ◌-◌, ◌<◌, ◌≡◌, Bool, true, false, Option, List, [], ◌∷◌, none, some, if◌then◌else◌,
  length,
}
use linux_kernel_modules.Crypto.Sampling.{Zone, Tick}
use linux_kernel_modules.Crypto.Score.{compute_score}
use linux_kernel_modules.Crypto.Control.{Bench, Event, tick, turn, control_step, launched}

-- `ops` and `run` are those of `struct challenge_ctx`. `working`: the control thread is in the first
-- sleep of its duty cycle. `idle` workers stand before the test of `run`, `busy` ones behind it.
pub record System : Type 0 where
  pub bench : Bench
  pub run : Bool
  pub working : Bool
  pub ops : ℕ
  pub idle : ℕ
  pub busy : ℕ

-- A round of `control_fn`, up to its first sleep or, when the time is over, to `compute_score`.
abbrev pub round : (expired : Bool) → System → System
round expired s =
    if s.bench.stop
    then s
    else if expired
    then record s { bench = record s.bench { armed = false; stop = true }; run = false }
    else record s { bench = control_step (turn false) s.bench; run = true; working = true }

-- `compute_score` has run.
abbrev pub computed : System → System
computed s = record s { bench = record s.bench { score = some (compute_score s.bench.ctx) } }

pub data Step (s : System) : System → Type 0 where
  -- A worker finds `run` set, and encrypts its buffer.
  encrypt : s.run ≡ true → 0 < s.idle → Step s (record s { idle = s.idle - 1; busy = s.busy + 1 })
  -- It counts the operation.
  count : 0 < s.busy → Step s (record s { ops = s.ops + 1; idle = s.idle + 1; busy = s.busy - 1 })
  -- The timer fires.
  sample :
      (zones : List Zone)
      → length zones ≡ 4
      → Step s
          (record s { bench = control_step (tick (record { ops = s.ops; zones = zones })) s.bench })
  -- The control thread begins a round.
  cycle : (expired : Bool) → s.working ≡ false → Step s (round expired s)
  -- Its first round behind the end of the time goes on, and computes the score.
  finish : s.bench.stop ≡ true → s.bench.score ≡ none → Step s (computed s)
  -- It ends the working part of its duty cycle.
  rest : s.working ≡ true → Step s (record s { run = false; working = false })

-- The four workers are started, and `control_fn` is about to enter its loop.
abbrev pub start : System
start = record { bench = launched; run = false; working = false; ops = 0; idle = 4; busy = 0 }

-- What a system can come to.
pub data Steps (s : System) : System → Type 0 where
  here : Steps s s
  next : {t u : System} → Steps s t → Step t u → Steps s u
