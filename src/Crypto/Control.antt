-- ===== src/Crypto/Control.antt =====
-- `control_fn` of LKM/crypto_challenge/crypto_challenge.c together with the sampling timer: when the
-- benchmark ends and what its score is computed from.
use linux_kernel_modules.Base.{
  ◌≡◌, refl, ap, ◌∙◌, Bool, true, false, Option, none, some, List, [], ◌∷◌, ◌++◌, if◌then◌else◌,
  arith, Bool-cases, inl, inr, ℕ,
}
use linux_kernel_modules.Crypto.Sampling.{Ctx, Tick, sample_fn, sampling, started}
use linux_kernel_modules.Crypto.Score.{compute_score}

-- `armed`: whether the timer is set. `score`: `none` until `compute_score` has run, then what it
-- gave.
pub record Bench : Type 0 where
  pub ctx : Ctx
  pub armed : Bool
  pub stop : Bool
  pub score : Option (Option ℕ)

-- Once `control_fn` has called `start_sampling` and cleared `stop`.
abbrev pub launched : Bench
launched = record { ctx = started; armed = true; stop = false; score = none }

-- The timer fires, or the loop of `control_fn` goes round; `expired` says that the 60 seconds are
-- over. What the loop does with `run`, which only the workers read, is in Threads.
pub data Event : Type 0 where
  tick : Tick → Event
  turn : (expired : Bool) → Event

unfoldable pub control_step : Event → Bench → Bench
unfolding sample_fn compute_score
control_step (tick t) b =
    if b.armed then record b { ctx = (sample_fn t b.ctx).0; armed = (sample_fn t b.ctx).1 } else b
control_step (turn expired) b =
    if b.stop
    then b
    else if expired
    then record b { armed = false; stop = true; score = some (compute_score b.ctx) }
    else b

unfoldable pub control : List Event → Bench → Bench
control [] b = b
control (e ∷ es) b = control es (control_step e b)

-- The time is not over in any of the events.
abbrev pub Running : List Event → Type 0
Running [] = Unit {0}
Running (tick t ∷ es) = Running es
Running (turn expired ∷ es) = (expired ≡ false) × Running es

abbrev pub ticks_of : List Event → List Tick
ticks_of [] = []
ticks_of (tick t ∷ es) = t ∷ ticks_of es
ticks_of (turn expired ∷ es) = ticks_of es

abbrev bench : Ctx → Bool → Bench
bench c armed = record { ctx = c; armed = armed; stop = false; score = none }

control-append : (es fs : List Event) (b : Bench) → control (es ++ fs) b ≡ control fs (control es b)
unfolding control
control-append [] fs b = refl
control-append (e ∷ es) fs b = control-append es fs (control_step e b)

-- The benchmark is over.
abbrev halted : Ctx → Option ℕ → Bench
halted c score = record { ctx = c; armed = false; stop = true; score = some score }

-- Nothing happens any more.
halted_lem :
    (es : List Event) (c : Ctx) (score : Option ℕ) → control es (halted c score) ≡ halted c score
unfolding control control_step
halted_lem [] c score = refl
halted_lem (tick t ∷ es) c score = halted_lem es c score
halted_lem (turn expired ∷ es) c score = halted_lem es c score

unarmed_lem : (es : List Event) (c : Ctx) → Running es → control es (bench c false) ≡ bench c false
unfolding control control_step
unarmed_lem [] c r = refl
unarmed_lem (tick t ∷ es) c r = unarmed_lem es c r
unarmed_lem (turn expired ∷ es) c r = rw r.0 (unarmed_lem es c r.1)

full_lem : (t : Tick) (c : Ctx) → (sample_fn t c).1 ≡ false → (sample_fn t c).0 ≡ c
unfolding sample_fn
full_lem t c h = ground arith

-- The timer takes the samples that `sampling` describes.
armed_lem :
    (es : List Event) (c : Ctx)
    → Running es
    → (armed : Bool) × (control es (bench c true) ≡ bench (sampling (ticks_of es) c) armed)
unfolding control control_step sampling
armed_lem [] c r = (true, refl)
armed_lem (turn expired ∷ es) c r = rw r.0 (armed_lem es c r.1)
armed_lem (tick t ∷ es) c r = elim (Bool-cases (sample_fn t c).1) [
  | inl e ↦ rw e (armed_lem es (sample_fn t c).0 r)
  | inr e ↦ (false, rw (e, full_lem t c e) (unarmed_lem es c r))
]

-- The score is that of the samples taken until the loop first finds the time over; what the timer
-- and the loop do later changes neither the samples nor the score, and the timer stays off.
pub score_of_the_run :
    (before after : List Event)
    → Running before
    → let b = control (before ++ (turn true ∷ after)) launched in
      (b.ctx ≡ sampling (ticks_of before) started)
      × (b.score ≡ some (compute_score (sampling (ticks_of before) started)))
      × (b.armed ≡ false)
unfolding control_step control
score_of_the_run before after r =
    let (armed, e) = armed_lem before started r in
    let c : Ctx = sampling (ticks_of before) started in
    let whole : control (before ++ (turn true ∷ after)) launched ≡ halted c (compute_score c) =
      control-append before (turn true ∷ after) launched
      ∙ ap (control (turn true ∷ after)) e
      ∙ halted_lem after c (compute_score c) in
    (ap (λ b. b.ctx) whole, ap (λ b. b.score) whole, ap (λ b. b.armed) whole)
