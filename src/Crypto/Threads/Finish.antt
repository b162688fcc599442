-- ===== src/Crypto/Threads/Finish.antt =====
-- How the benchmark of LKM/crypto_challenge/crypto_challenge.c ends.
use linux_kernel_modules.Base.{
  ℕ, ◌+◌, ◌-◌, ◌/◌, ◌*◌, ◌^◌, ◌≤◌, ◌<◌, ◌≡◌, ◌≢◌, refl, sym, ap, ◌∙◌, true, false, none, some, List,
  [], ◌∷◌, if◌then◌else◌, length, Bool-cases, ◌⊎◌, inl, inr, arith,
}
use linux_kernel_modules.Crypto.Sampling.{Sample, max_samples, overheated}
use linux_kernel_modules.Crypto.Control.{control_step}
use linux_kernel_modules.Crypto.Score.{
  compute_score, compute_score_exact, last_ops, FourCores, AllAtMost, most_delta, total_heat,
  bench_duration_sec,
}
use linux_kernel_modules.Crypto.Threads.{
  System, Step, encrypt, count, sample, cycle, finish, rest, start, Steps, here, next, computed,
}
use linux_kernel_modules.Crypto.Threads.Invariant.{
  Climbing, top, le-top, IsSound, Steps-IsSound, start-IsSound,
}

pub top-last_ops : (s : Sample) (ss : List Sample) → top s.ops ss ≡ last_ops s ss
unfolding last_ops
top-last_ops s [] = refl
top-last_ops s (t ∷ ss) = top-last_ops t ss

-- The score of a run, by its samples.
abbrev pub score_by : Sample → List Sample → ℕ
score_by first others =
    if overheated (first ∷ others)
    then 0
    else (last_ops first others - first.ops)
      / bench_duration_sec
      * 100000
      / (total_heat others first.temp / 100000 + 1)

computed_exact :
    (s : System) (first : Sample) (others : List Sample)
    → IsSound s
    → s.bench.ctx.samples ≡ first ∷ others
    → AllAtMost most_delta others first.temp
    → s.ops < 2 ^ 40
    → compute_score s.bench.ctx ≡ some (score_by first others)
computed_exact s first others h e mild few =
    let g = h.samples in
    let climbing : Climbing 0 (first ∷ others) = rw e at g.climbing in
    let counted : top 0 (first ∷ others) ≤ s.ops = rw e at g.counted in
    let cores : FourCores (first ∷ others) = rw e at g.cores in
    let fits : length (first ∷ others) ≤ max_samples = rw e at g.fits in
    let verdict : s.bench.ctx.invalid ≡ overheated (first ∷ others) = rw e at g.verdict in
    let last = top-last_ops first others in
    let score : ℕ =
      (last_ops first others - first.ops)
      / bench_duration_sec
      * 100000
      / (total_heat others first.temp / 100000 + 1) in
    compute_score_exact s.bench.ctx first others e (omega (arith, fits)) cores.1 mild
      (omega (arith, le-top first.ops others climbing.1, last)) (omega (arith, counted, last))
    ∙ ap (λ b. some (if b then 0 else score)) verdict

-- However the threads interleave, once the benchmark has stopped with fewer than 2^40 operations, no
-- core more than 125 degrees above its first temperature and none more than 2^31 thousandths below:
-- `final_score` is, or is not computed yet and becomes in one step of the control thread, 0 if one of
-- the samples shows a core over 65 degrees, and else the operations per second between the first
-- and the last sample, times 100000, over one plus the penalty in units of 100000.
pub final_score_exact :
    (s : System) (first : Sample) (others : List Sample)
    → Steps start s
    → s.bench.stop ≡ true
    → s.bench.ctx.samples ≡ first ∷ others
    → AllAtMost most_delta others first.temp
    → s.ops < 2 ^ 40
    → let exact =
        if overheated (first ∷ others)
        then 0
        else (last_ops first others - first.ops)
          / bench_duration_sec
          * 100000
          / (total_heat others first.temp / 100000 + 1) in
      (s.bench.score ≡ some (some exact))
      ⊎ ((s.bench.score ≡ none)
          × Step s (computed s)
          × ((computed s).bench.score ≡ some (some exact)))
final_score_exact s first others run over e mild few =
    let h = Steps-IsSound run start-IsSound in
    let exact = computed_exact s first others h e mild few in
    elim h.scored [
      | inl nothing ↦ inr (nothing, finish over nothing, ap some exact)
      | inr (score, stopped) ↦ inl (score ∙ ap some exact)
    ]

-- The benchmark is over: the timer is off, and nobody sets `run` again.
record Over (s : System) : Type 0 where
  stop : s.bench.stop ≡ true
  run : s.run ≡ false
  working : s.working ≡ false
  armed : s.bench.armed ≡ false

-- Nothing changes any more but that busy workers count their operation, and that the score is computed.
record Settled (s t : System) : Type 0 where
  over : Over t
  ctx : t.bench.ctx ≡ s.bench.ctx
  score : (s.bench.score ≡ none) ⊎ (t.bench.score ≡ s.bench.score)
  ops : t.ops + t.busy ≡ s.ops + s.busy

Step-Settled : {s t : System} → Step s t → Over s → Settled s t
unfolding control_step
Step-Settled {s} (encrypt r i) o = let no = o.run in cc
Step-Settled {s} (count b) o = record {
  over = record { stop = o.stop; run = o.run; working = o.working; armed = o.armed };
  ctx = refl;
  score = inr refl;
  ops = omega arith;
}
Step-Settled {s} (sample zones four) o =
    simp o.armed (record { over = o; ctx = refl; score = inr refl; ops = refl })
Step-Settled {s} (cycle expired w) o =
    simp o.stop (record { over = o; ctx = refl; score = inr refl; ops = refl })
Step-Settled {s} (finish over e) o = record {
  over = record { stop = o.stop; run = o.run; working = o.working; armed = o.armed };
  ctx = refl;
  score = inl e;
  ops = refl;
}
Step-Settled {s} (rest w) o = let no = o.working in cc

Steps-Settled : {s t : System} → Steps s t → Over s → Settled s t
Steps-Settled here o = record { over = o; ctx = refl; score = inr refl; ops = refl }
Steps-Settled (next r st) o =
    let before = Steps-Settled r o in
    let now = Step-Settled st before.over in
    record {
      over = now.over;
      ctx = now.ctx ∙ before.ctx;
      score = elim before.score [
        | inl missing ↦ inl missing
        | inr same ↦ elim now.score [
          | inl missing ↦ inl (sym same ∙ missing)
          | inr still ↦ inr (still ∙ same)
        ]
      ];
      ops = now.ops ∙ before.ops;
    }

IsSound-Over : (s : System) → IsSound s → s.bench.stop ≡ true → Over s
IsSound-Over s h over = record {
  stop = over;
  run = (h.quiet over).0;
  working = off;
  armed = (h.quiet over).1;
}
  where
    off : s.working ≡ false
    off = elim (Bool-cases s.working) [ inl w ↦ let on = h.on_duty w in cc | inr w ↦ w ]

-- Once the benchmark has stopped, whatever the threads still do: it stays so, the samples and the
-- verdict stay as they are, and so does the score once it is computed; the operations grow by one
-- at most for each of the four workers, for the operation that it had begun.
pub late_operations :
    (s t : System)
    → Steps start s
    → s.bench.stop ≡ true
    → Steps s t
    → (t.bench.stop ≡ true)
      × (t.bench.ctx ≡ s.bench.ctx)
      × (s.bench.score ≢ none → t.bench.score ≡ s.bench.score)
      × (t.ops ≤ s.ops + s.busy)
      × (s.busy ≤ 4)
late_operations s t run over later =
    let h = Steps-IsSound run start-IsSound in
    let settled = Steps-Settled later (IsSound-Over s h over) in
    (
      settled.over.stop,
      settled.ctx,
      λ there. elim settled.score [ inl missing ↦ absurd (there missing) | inr same ↦ same ],
      omega (arith, settled.ops),
      omega (arith, h.workers),
    )
