-- ===== src/Tests/Benchmark.antt =====
-- The theorems on the threads of the benchmark at a concrete run: one operation between two samples.
use linux_kernel_modules.Base.{
  ◌≢◌, ◌≤◌, ◌+◌, ℕ, ◌≡◌, ◌⊎◌, refl, true, false, none, some, pos, List, [], ◌∷◌, arith,
}
use linux_kernel_modules.Crypto.Sampling.{
  read_temp, Zone, sample_fn, Tick, any_hot, overheated, Sample,
}
use linux_kernel_modules.Tests.{copy_out}
use linux_kernel_modules.Crypto.Stats.{Stats, stats_read, parse_stats}
use linux_kernel_modules.Crypto.Threads.Shown.{stats_of, parse_stats-stopped}
use linux_kernel_modules.Crypto.Score.{compute_score, last_ops, total_heat, heat}
use linux_kernel_modules.Crypto.Control.{tick, control_step}
use linux_kernel_modules.Crypto.Threads.{
  System, Steps, Step, start, round, here, next, cycle, sample, finish, encrypt, count, rest,
  computed,
}
use linux_kernel_modules.Crypto.Threads.Finish.{score_by, final_score_exact, late_operations}

abbrev zones : List Zone
zones = none ∷ none ∷ none ∷ none ∷ []

abbrev sampled : System → System
sampled s = record s { bench = control_step (tick (record { ops = s.ops; zones = zones })) s.bench }

abbrev begun : System
begun = sampled (round false start)

abbrev encrypting : System
encrypting = record begun { idle = 3; busy = 1 }

abbrev counted : System
counted = sampled (record encrypting { ops = 1; idle = 4; busy = 0 })

-- A second operation is under way when the time is over.
abbrev again : System
again = record counted { idle = 3; busy = 1; run = false; working = false }

abbrev over : System
over = round true again

abbrev scored : System
scored = computed over

abbrev late : System
late = record scored { ops = 2; idle = 4; busy = 0 }

run-over : Steps start over
unfolding control_step sample_fn any_hot compute_score
run-over =
    next
      (next
        (next
          (next
            (next
              (next (next (next here (cycle false refl)) (sample zones refl))
                (encrypt refl (omega arith)))
              (count (omega arith)))
            (sample zones refl))
          (encrypt refl (omega arith)))
        (rest refl))
      (cycle true refl)

run-scored : Steps start scored
unfolding control_step sample_fn any_hot
run-scored = next run-over (finish refl refl)

abbrev at_count : ℕ → Sample
at_count n = record { ops = n; temp = pos 0 ∷ pos 0 ∷ pos 0 ∷ pos 0 ∷ [] }

final_score_exact_example :
    (scored.bench.score ≡ some (some 0))
    ⊎ ((scored.bench.score ≡ none)
        × Step scored (computed scored)
        × ((computed scored).bench.score ≡ some (some 0)))
unfolding control_step sample_fn any_hot overheated total_heat heat last_ops read_temp
final_score_exact_example =
    final_score_exact scored (at_count 0) (at_count 1 ∷ []) run-scored refl refl
      (
        (
          omega arith,
          omega arith,
          (omega arith, omega arith, (omega arith, omega arith, (omega arith, omega arith, tt))),
        ),
        tt,
      )
      (omega arith)

parse_stats-stopped_example :
    (shown : Stats) × (stats_of scored ≡ some shown)
    × (parse_stats (stats_read copy_out [] 256 0 shown)
        ≡ some (pos 1, pos 2, pos (score_by (at_count 0) (at_count 1 ∷ [])), pos 0))
unfolding control_step sample_fn any_hot overheated total_heat heat last_ops read_temp
parse_stats-stopped_example =
    parse_stats-stopped copy_out [] 256 scored (at_count 0) (at_count 1 ∷ [])
      (λ len ppos out l h. refl) (omega arith) run-scored refl (λ none_yet. cc) refl
      (
        (
          omega arith,
          omega arith,
          (omega arith, omega arith, (omega arith, omega arith, (omega arith, omega arith, tt))),
        ),
        tt,
      )
      (omega arith)

-- The worker that was at work when the time was over counts its operation.
late_operations_example :
    (late.bench.stop ≡ true)
    × (late.bench.ctx ≡ scored.bench.ctx)
    × (scored.bench.score ≢ none → late.bench.score ≡ scored.bench.score)
    × (2 ≤ 1 + 1)
    × (1 ≤ 4)
unfolding control_step
late_operations_example =
    late_operations scored late run-scored refl (next here (count (omega arith)))

-- A tick that finds two cores over the limit, and one that finds no zones.
abbrev two_ticks : List Tick
two_ticks =
    record { ops = 3; zones = some (some (pos 65001)) ∷ some (some (pos 70000)) ∷ none ∷ none ∷ [] }
    ∷ record { ops = 9; zones = zones }
    ∷ []
