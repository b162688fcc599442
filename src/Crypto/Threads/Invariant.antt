-- ===== src/Crypto/Threads/Invariant.antt =====
-- What holds while the benchmark of LKM/crypto_challenge/crypto_challenge.c runs.
use linux_kernel_modules.Base.{
  ℕ, ◌+◌, ◌≤◌, ◌≡◌, refl, Bool, true, false, none, some, ◌⊎◌, List, [], ◌∷◌, ◌++◌, map, length,
  length-append, length-map, ltb, Bool-cases, inl, inr, arith, ltb→lt,
}
use linux_kernel_modules.Crypto.Sampling.{
  Zone, Sample, Ctx, max_samples, sample_fn, read_temp, overheated, still_right,
}
use linux_kernel_modules.Crypto.Control.{tick, control_step}
use linux_kernel_modules.Crypto.Score.{compute_score, FourCores}
use linux_kernel_modules.Crypto.Threads.{
  System, Step, encrypt, count, sample, cycle, finish, rest, start, Steps, here, next, round,
}

-- The counts of operations never fall, from `from` on.
abbrev pub Climbing : ℕ → List Sample → Type 0
Climbing from [] = Unit {0}
Climbing from (s ∷ ss) = (from ≤ s.ops) × Climbing s.ops ss

-- The last count.
abbrev pub top : ℕ → List Sample → ℕ
top from [] = from
top from (s ∷ ss) = top s.ops ss

pub le-top : (from : ℕ) (ss : List Sample) → Climbing from ss → from ≤ top from ss
le-top from [] h = omega arith
le-top from (s ∷ ss) h = omega (arith, h.0, le-top s.ops ss h.1)

Climbing-append :
    (from : ℕ) (ss : List Sample) (x : Sample)
    → Climbing from ss
    → top from ss ≤ x.ops
    → Climbing from (ss ++ (x ∷ []))
Climbing-append from [] x h le = (le, tt)
Climbing-append from (s ∷ ss) x h le = (h.0, Climbing-append s.ops ss x h.1 le)

top-append : (from : ℕ) (ss : List Sample) (x : Sample) → top from (ss ++ (x ∷ [])) ≡ x.ops
top-append from [] x = refl
top-append from (s ∷ ss) x = top-append s.ops ss x

FourCores-append :
    (ss : List Sample) (x : Sample) → FourCores ss → length x.temp ≤ 4 → FourCores (ss ++ (x ∷ []))
FourCores-append [] x h le = (le, tt)
FourCores-append (s ∷ ss) x h le = (h.0, FourCores-append ss x h.1 le)

-- The samples are those of a run so far in which `ops` operations were counted.
pub record GoodSamples (c : Ctx) (ops : ℕ) : Type 0 where
  pub climbing : Climbing 0 c.samples
  pub counted : top 0 c.samples ≤ ops
  pub cores : FourCores c.samples
  pub fits : length c.samples ≤ max_samples
  pub verdict : c.invalid ≡ overheated c.samples

pub record IsSound (s : System) : Type 0 where
  pub samples : GoodSamples s.bench.ctx s.ops
  pub workers : s.idle + s.busy ≡ 4
  pub on_duty : s.working ≡ true → s.bench.stop ≡ false
  pub quiet : s.bench.stop ≡ true → (s.run ≡ false) × (s.bench.armed ≡ false)
  pub scored :
      (s.bench.score ≡ none)
      ⊎ ((s.bench.score ≡ some (compute_score s.bench.ctx)) × (s.bench.stop ≡ true))

sample_fn-GoodSamples :
    (c : Ctx) (ops : ℕ) (zones : List Zone)
    → length zones ≡ 4
    → GoodSamples c ops
    → GoodSamples (sample_fn (record { ops = ops; zones = zones }) c).0 ops
unfolding sample_fn
sample_fn-GoodSamples c ops zones four g = elim (Bool-cases (ltb (length c.samples) max_samples)) [
  | inr full ↦ rw full g
  | inl room ↦ rw room (record {
    climbing = Climbing-append 0 c.samples new g.climbing g.counted;
    counted = omega (arith, top-append 0 c.samples new);
    cores = FourCores-append c.samples new g.cores (omega (arith, length-map zones read_temp));
    fits = omega (arith, length-append c.samples (new ∷ []), ltb→lt _ _ room);
    verdict = still_right (record { ops = ops; zones = zones }) c g.verdict;
  })
]
  where
    new : Sample
    new = record { ops = ops; temp = map read_temp zones }

more-GoodSamples : (c : Ctx) (ops : ℕ) → GoodSamples c ops → GoodSamples c (ops + 1)
more-GoodSamples c ops g = record {
  climbing = g.climbing;
  counted = omega (arith, g.counted);
  cores = g.cores;
  fits = g.fits;
  verdict = g.verdict;
}

-- While the benchmark runs there is no score.
unscored : (s : System) → IsSound s → s.bench.stop ≡ false → s.bench.score ≡ none
unscored s h on = elim h.scored [ inl e ↦ e | inr (e, over) ↦ cc ]

round-IsSound :
    (expired : Bool) (s : System) → s.working ≡ false → IsSound s → IsSound (round expired s)
unfolding control_step
round-IsSound expired s w h = elim (Bool-cases s.bench.stop) [
  | inl over ↦ simp over h
  | inr on ↦ going expired on
]
  where
    going : (expired : Bool) → s.bench.stop ≡ false → IsSound (round expired s)
    going true on = simp on (record {
      samples = h.samples;
      workers = h.workers;
      on_duty = λ e. cc;
      quiet = λ e. (refl, refl);
      scored = inl (unscored s h on);
    })
    going false on = simp on (record {
      samples = h.samples;
      workers = h.workers;
      on_duty = λ e. on;
      quiet = λ e. cc;
      scored = h.scored;
    })

-- The timer is set only while the benchmark runs.
armed-running : (s : System) → IsSound s → s.bench.armed ≡ true → s.bench.stop ≡ false
armed-running s h armed = elim (Bool-cases s.bench.stop) [
  | inl over ↦ let off = (h.quiet over).1 in cc
  | inr on ↦ on
]

sample-IsSound :
    (s : System) (zones : List Zone)
    → length zones ≡ 4
    → IsSound s
    → IsSound
        (record s { bench = control_step (tick (record { ops = s.ops; zones = zones })) s.bench })
unfolding control_step
sample-IsSound s zones four h = elim (Bool-cases s.bench.armed) [
  | inr off ↦ simp off h
  | inl armed ↦
      let on : s.bench.stop ≡ false = armed-running s h armed in
      simp armed (record {
        samples = sample_fn-GoodSamples s.bench.ctx s.ops zones four h.samples;
        workers = h.workers;
        on_duty = h.on_duty;
        quiet = λ e. cc;
        scored = inl (unscored s h on);
      })
]

pub Step-IsSound : {s t : System} → Step s t → IsSound s → IsSound t
Step-IsSound (encrypt r i) h = record {
  samples = h.samples;
  workers = omega (arith, h.workers);
  on_duty = h.on_duty;
  quiet = h.quiet;
  scored = h.scored;
}
Step-IsSound {s} (count b) h = record {
  samples = more-GoodSamples s.bench.ctx s.ops h.samples;
  workers = omega (arith, h.workers);
  on_duty = h.on_duty;
  quiet = h.quiet;
  scored = h.scored;
}
Step-IsSound {s} (sample zones four) h = sample-IsSound s zones four h
Step-IsSound {s} (cycle expired w) h = round-IsSound expired s w h
Step-IsSound {s} (finish over e) h = record {
  samples = h.samples;
  workers = h.workers;
  on_duty = h.on_duty;
  quiet = h.quiet;
  scored = inr (refl, over);
}
Step-IsSound {s} (rest w) h = record {
  samples = h.samples;
  workers = h.workers;
  on_duty = λ e. cc;
  quiet = λ e. (refl, (h.quiet e).1);
  scored = h.scored;
}

pub Steps-IsSound : {s t : System} → Steps s t → IsSound s → IsSound t
Steps-IsSound here h = h
Steps-IsSound (next r st) h = Step-IsSound st (Steps-IsSound r h)

pub start-IsSound : IsSound start
unfolding overheated
start-IsSound = record {
  samples = record {
    climbing = tt;
    counted = omega arith;
    cores = tt;
    fits = omega arith;
    verdict = refl;
  };
  workers = refl;
  on_duty = λ e. refl;
  quiet = λ e. cc;
  scored = inl refl;
}
