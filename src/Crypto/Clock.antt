-- ===== src/Crypto/Clock.antt =====
-- When the loop of `control_fn` of LKM/crypto_challenge/crypto_challenge.c finds the 60 seconds over:
-- `start_jiffies` and `jiffies` are `unsigned long`, of 32 bits on the board, and wrap around.
use linux_kernel_modules.Base.{
  ℕ, ◌+◌, ◌-◌, ◌*◌, ◌%◌, ◌^◌, ◌≤◌, ◌<◌, ◌≡◌, refl, ap, ◌∙◌, Bool, true, false, some, List, [], ◌∷◌,
  ◌++◌, map, arith,
}
use mathlib.Core.List.{map-append}
use linux_kernel_modules.Crypto.Sampling.{Tick, sampling, started}
use linux_kernel_modules.Crypto.Score.{compute_score, bench_duration_sec}
use linux_kernel_modules.Crypto.Control.{
  Event, tick, turn, control, launched, Running, ticks_of, score_of_the_run,
}

abbrev pub word : ℕ
word = 2 ^ 32

-- The kernel's clock: HZ, and `time_after`, documented for times less than half of the range apart.
pub record Clock : Type 0 where
  pub hz : ℕ
  pub time_after : ℕ → ℕ → Bool
  pub later : (b d : ℕ) → b < word → 0 < d → d < 2 ^ 31 → time_after ((b + d) % word) b ≡ true
  pub not_later : (b d : ℕ) → b < word → d < 2 ^ 31 → time_after b ((b + d) % word) ≡ false
  pub short : bench_duration_sec * hz < 2 ^ 31

-- What happens: the timer fires, or the loop goes round, some time after `start_jiffies` was set.
pub data Timed : Type 0 where
  tick_at : Tick → Timed
  turn_at : (elapsed : ℕ) → Timed

module _ (c : Clock) (start : ℕ) where
  -- The test of the loop.
  unfoldable pub expired : (jiffies : ℕ) → Bool
  expired jiffies = c.time_after jiffies ((start + bench_duration_sec * c.hz) % word)

  -- What the control thread sees of it.
  abbrev pub seen : Timed → Event
  seen (tick_at t) = tick t
  seen (turn_at elapsed) = turn (expired ((start + elapsed) % word))

  late :
      (elapsed : ℕ)
      → bench_duration_sec * c.hz < elapsed
      → elapsed < 2 ^ 31
      → expired ((start + elapsed) % word) ≡ true
  unfolding expired
  late elapsed over small =
      ap (λ n. c.time_after n ((start + bench_duration_sec * c.hz) % word)) same
      ∙ c.later ((start + bench_duration_sec * c.hz) % word) (elapsed - bench_duration_sec * c.hz)
          (omega arith) (omega arith) (omega arith)
    where
      same :
          (start + elapsed) % word
          ≡ ((start + bench_duration_sec * c.hz) % word + (elapsed - bench_duration_sec * c.hz))
            % word
      same = omega arith

  early :
      (elapsed : ℕ)
      → elapsed ≤ bench_duration_sec * c.hz
      → expired ((start + elapsed) % word) ≡ false
  unfolding expired
  early elapsed within =
      ap (c.time_after ((start + elapsed) % word)) same
      ∙ c.not_later ((start + elapsed) % word) (bench_duration_sec * c.hz - elapsed) (omega arith)
          (omega (arith, c.short))
    where
      same :
          (start + bench_duration_sec * c.hz) % word
          ≡ ((start + elapsed) % word + (bench_duration_sec * c.hz - elapsed)) % word
      same = omega arith

  -- All turns are within the time.
  abbrev pub Within : List Timed → Type 0
  Within [] = Unit {0}
  Within (tick_at t ∷ es) = Within es
  Within (turn_at elapsed ∷ es) = (elapsed ≤ bench_duration_sec * c.hz) × Within es

  abbrev pub ticks_in : List Timed → List Tick
  ticks_in [] = []
  ticks_in (tick_at t ∷ es) = t ∷ ticks_in es
  ticks_in (turn_at elapsed ∷ es) = ticks_in es

  Within-Running : (es : List Timed) → Within es → Running (map seen es)
  Within-Running [] h = tt
  Within-Running (tick_at t ∷ es) h = Within-Running es h
  Within-Running (turn_at elapsed ∷ es) h = (early elapsed h.0, Within-Running es h.1)

  ticks_of-seen : (es : List Timed) → ticks_of (map seen es) ≡ ticks_in es
  ticks_of-seen [] = refl
  ticks_of-seen (tick_at t ∷ es) = ap (λ ts. t ∷ ts) (ticks_of-seen es)
  ticks_of-seen (turn_at elapsed ∷ es) = ticks_of-seen es

  -- Wherever `jiffies` stands when the benchmark starts, and also when it wraps around during it: the
  -- score is computed from the samples that the timer took until the first turn of the loop later
  -- than 60 seconds (and less than 2^31 jiffies) after the start, whatever happens afterwards.
  pub score_on_time :
      (before after : List Timed) (elapsed : ℕ)
      → Within before
      → bench_duration_sec * c.hz < elapsed
      → elapsed < 2 ^ 31
      → let b = control (map seen (before ++ (turn_at elapsed ∷ after))) launched in
        (b.ctx ≡ sampling (ticks_in before) started)
        × (b.score ≡ some (compute_score (sampling (ticks_in before) started)))
        × (b.armed ≡ false)
  score_on_time before after elapsed within over small =
      rw (map-append seen before (turn_at elapsed ∷ after), late elapsed over small)
        (rw (ticks_of-seen before) at
          (score_of_the_run (map seen before) (map seen after) (Within-Running before within)))
