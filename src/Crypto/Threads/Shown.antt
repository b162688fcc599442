-- ===== src/Crypto/Threads/Shown.antt =====
-- What /proc/crypto_challenge/stats of LKM/crypto_challenge/crypto_challenge.c shows of a run that
-- has stopped.
use linux_kernel_modules.Base.{
  ℕ, ◌+◌, ◌-◌, ◌*◌, ◌/◌, ◌^◌, ◌≤◌, ◌<◌, ◌≡◌, ◌≢◌, refl, ◌∙◌, Bool, true, false, Option, none, some,
  List, ◌∷◌, if◌then◌else◌, length, pos, arith, Bool-cases, inl, inr,
}
use native.Mathlib.Nat.{div-le_self}
use linux_kernel_modules.Crypto.Sampling.{Sample, overheated, max_samples}
use linux_kernel_modules.Crypto.Score.{
  last_ops, AllAtMost, most_delta, total_heat, bench_duration_sec,
}
use linux_kernel_modules.Crypto.Threads.{System, Steps, start}
use linux_kernel_modules.Crypto.Threads.Invariant.{top, Steps-IsSound, start-IsSound}
use linux_kernel_modules.Crypto.Threads.Finish.{final_score_exact, top-last_ops, score_by}
use linux_kernel_modules.Text.Decimal.{Shown}
use linux_kernel_modules.Crypto.Stats.{
  Stats, Copies, stats_read, parse_stats, parse_stats-stats_read, as_s64,
}

-- `ctx.final_score`, which is 0 until `compute_score` has set it.
abbrev pub shown_score : Option (Option ℕ) → Option ℕ
shown_score none = some 0
shown_score (some score) = score

-- The fields of `ctx` that `stats_read` shows.
abbrev pub stats_of : System → Option Stats
stats_of s = elim (shown_score s.bench.score) [
  | none ↦ none
  | some score ↦ some (record {
    ops = pos s.ops;
    sample_count = pos (length s.bench.ctx.samples);
    final_score = score;
    invalid = if s.bench.ctx.invalid then pos 1 else pos 0;
  })
]

score_by-small :
    (first : Sample) (others : List Sample) (ops : ℕ)
    → last_ops first others ≤ ops
    → ops < 2 ^ 40
    → score_by first others < 2 ^ 63
score_by-small first others ops h few = elim (Bool-cases (overheated (first ∷ others))) [
  | inl hot ↦ rw hot (omega arith)
  | inr fine ↦ rw fine (
      omega (
        arith,
        div-le_self ((last_ops first others - first.ops) / bench_duration_sec * 100000)
            (total_heat others first.temp / 100000 + 1),
      ))
]

small_score : (n : ℕ) → n < 2 ^ 63 → as_s64 n ≡ pos n
unfolding as_s64
small_score n h = ground arith

flag-Shown : (b : Bool) → Shown (if b then pos 1 else pos 0)
flag-Shown true = omega arith
flag-Shown false = omega arith

-- However the threads have interleaved: once the benchmark has stopped and its score is computed,
-- under the conditions under which it is exact, a read of the file shows the operations, the number of samples, the
-- score that these samples give, and whether one of them shows a core over 65 degrees.
pub parse_stats-stopped :
    (f : (len ppos : ℕ) → List ℕ → (l : ℕ) → List ℕ) (junk : List ℕ) (len : ℕ) (s : System)
    (first : Sample) (others : List Sample)
    → Copies f
    → 255 ≤ len
    → Steps start s
    → s.bench.stop ≡ true
    → s.bench.score ≢ none
    → s.bench.ctx.samples ≡ first ∷ others
    → AllAtMost most_delta others first.temp
    → s.ops < 2 ^ 40
    → (shown : Stats) × (stats_of s ≡ some shown)
      × (parse_stats (stats_read f junk len 0 shown)
          ≡ some (
            pos s.ops,
            pos (length (first ∷ others)),
            pos (score_by first others),
            if overheated (first ∷ others) then pos 1 else pos 0,
          ))
parse_stats-stopped f junk len s first others copies h run over there e mild few =
    let sound = Steps-IsSound run start-IsSound in
    let g = sound.samples in
    let counted : top 0 (first ∷ others) ≤ s.ops = rw e at g.counted in
    let fits : length (first ∷ others) ≤ max_samples = rw e at g.fits in
    let verdict : s.bench.ctx.invalid ≡ overheated (first ∷ others) = rw e at g.verdict in
    let small =
      score_by-small first others s.ops (omega (arith, counted, top-last_ops first others)) few in
    let final : s.bench.score ≡ some (some (score_by first others)) =
      elim (final_score_exact s first others run over e mild few) [
        | inl score ↦ score
        | inr (nothing, way, rest) ↦ absurd (there nothing)
      ] in
    let shown : Stats = record {
      ops = pos s.ops;
      sample_count = pos (length (first ∷ others));
      final_score = score_by first others;
      invalid = if overheated (first ∷ others) then pos 1 else pos 0;
    } in
    (
      shown,
      rw (final, e, verdict) refl,
      parse_stats-stats_read f junk len shown copies h (omega arith) (omega (arith, fits))
            (flag-Shown (overheated (first ∷ others))) (omega (arith, small))
          ∙ rw (small_score (score_by first others) small) refl,
    )
