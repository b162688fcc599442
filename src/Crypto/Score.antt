-- ===== src/Crypto/Score.antt =====
-- The score of crypto_challenge.c: `compute_score`, in the 64-bit arithmetic of the source.
use native.Mathlib.Nat.{mul-div-le, le-div_iff_mul-le}
use linux_kernel_modules.Base.{
  ℕ, ◌+◌, ◌-◌, ◌*◌, ◌/◌, ◌%◌, ◌^◌, ◌≤◌, ◌<◌, ◌≡◌, ap, ap₂, ◌∙◌, Option, none, some, List, [], ◌∷◌,
  if◌then◌else◌, length, ℤ, pos, negsuc, pos_part, neg_part, is_neg, arith, ltb, ltb→lt, Bool-cases,
  inl, inr,
}
use linux_kernel_modules.Crypto.Sampling.{Sample, Ctx}

abbrev pub bench_duration_sec : ℕ
bench_duration_sec = 60

abbrev pub u64 : ℕ → ℕ
u64 n = n % 2 ^ 64

-- `t - init_temp[c]`, an `int` of 32 bits, which wraps around.
unfoldable pub int_minus : ℤ → ℤ → ℤ
int_minus t init =
    let n = (pos_part t + neg_part init + 2 ^ 33 - (neg_part t + pos_part init)) % 2 ^ 32 in
    if ltb n (2 ^ 31) then pos n else negsuc (2 ^ 32 - n - 1)

-- `delta`, behind the test that makes it 0 where it is negative.
unfoldable pub delta : (t init : ℤ) → ℕ
unfolding int_minus
delta t init = if is_neg (int_minus t init) then 0 else pos_part (int_minus t init)

-- The inner loop: one sample's part, core by core, added to `thermal_cost`.
unfoldable pub add_sample : List ℤ → List ℤ → ℕ → ℕ
unfolding delta
add_sample [] init cost = cost
add_sample (t ∷ ts) [] cost = cost
add_sample (t ∷ ts) (i ∷ init) cost = add_sample ts init (u64 (cost + u64 (delta t i * delta t i)))

-- The outer loop, over the samples behind the first.
unfoldable pub add_samples : List Sample → List ℤ → ℕ → ℕ
unfolding add_sample
add_samples [] init cost = cost
add_samples (s ∷ ss) init cost = add_samples ss init (add_sample s.temp init cost)

unfoldable pub last_ops : Sample → List Sample → ℕ
last_ops s [] = s.ops
last_ops s (t ∷ ts) = last_ops t ts

unfoldable pub score_of : (ops thermal_cost : ℕ) → ℕ
score_of ops thermal_cost =
    u64 (ops / bench_duration_sec * 100000) / u64 (thermal_cost / 100000 + 1)

-- `compute_score`: the value of `final_score`. `none`: with no sample it reads `samples[-1]`.
unfoldable pub compute_score : Ctx → Option ℕ
unfolding add_samples last_ops score_of
compute_score c = elim c.samples [
  | [] ↦ none
  | s ∷ ss ↦ some (
      if c.invalid
      then 0
      else score_of (u64 (last_ops s ss + 2 ^ 64 - s.ops)) (add_samples ss s.temp 0))
]

-- How far a temperature is above another; 0 if it is not.
abbrev pub excess : (t init : ℤ) → ℕ
excess t init = (pos_part t + neg_part init) - (neg_part t + pos_part init)

-- The penalty: the squares of how far the cores are above their first temperatures.
unfoldable pub heat : List ℤ → List ℤ → ℕ
heat [] init = 0
heat (t ∷ ts) [] = 0
heat (t ∷ ts) (i ∷ init) = excess t i * excess t i + heat ts init

unfoldable pub total_heat : List Sample → List ℤ → ℕ
unfolding heat
total_heat [] init = 0
total_heat (s ∷ ss) init = heat s.temp init + total_heat ss init

-- No core is more than `most` above its first temperature, or more than 2^31 below.
abbrev pub AtMost : ℕ → List ℤ → List ℤ → Type 0
AtMost most [] init = Unit {0}
AtMost most (t ∷ ts) [] = Unit {0}
AtMost most (t ∷ ts) (i ∷ init) = (excess t i ≤ most) × (excess i t ≤ 2 ^ 31) × AtMost most ts init

abbrev pub AllAtMost : ℕ → List Sample → List ℤ → Type 0
AllAtMost most [] init = Unit {0}
AllAtMost most (s ∷ ss) init = AtMost most s.temp init × AllAtMost most ss init

-- No core is that far above its first temperature: 125 degrees.
abbrev pub most_delta : ℕ
most_delta = 125000

abbrev pub most_square : ℕ
most_square = 15625000000

square-le : (d : ℕ) → d ≤ most_delta → d * d ≤ most_square
square-le d h = let linear : d * d ≤ most_delta * d = grind arith in omega arith

-- The subtraction of so close numbers does not wrap.
delta-excess : (t i : ℤ) → excess t i ≤ most_delta → excess i t ≤ 2 ^ 31 → delta t i ≡ excess t i
unfolding delta int_minus
delta-excess t i above below =
    difference (pos_part t + neg_part i) (neg_part t + pos_part i) above (omega (arith, below))
  where
    difference :
        (a b : ℕ)
        → a - b ≤ most_delta
        → b - a ≤ 2 ^ 31
        → let n = (a + 2 ^ 33 - b) % 2 ^ 32 in
          let d = if ltb n (2 ^ 31) then pos n else negsuc (2 ^ 32 - n - 1) in
          (if is_neg d then 0 else pos_part d) ≡ a - b
    difference a b above below = elim (Bool-cases (ltb ((a + 2 ^ 33 - b) % 2 ^ 32) (2 ^ 31))) [
      | inl up ↦ let small = ltb→lt _ _ up in rw up (omega arith)
      | inr down ↦
          let big : 2 ^ 31 ≤ (a + 2 ^ 33 - b) % 2 ^ 32 = ground arith in rw down (omega arith)
    ]

add_sample-exact :
    (ts init : List ℤ) (cost : ℕ)
    → AtMost most_delta ts init
    → cost + length ts * most_square < 2 ^ 64
    → (add_sample ts init cost ≡ cost + heat ts init) × (heat ts init ≤ length ts * most_square)
unfolding add_sample heat
add_sample-exact [] init cost h b = (omega arith, omega arith)
add_sample-exact (t ∷ ts) [] cost h b = (omega arith, omega arith)
add_sample-exact (t ∷ ts) (i ∷ init) cost h b =
    let square : ℕ = excess t i * excess t i in
    let small : square ≤ most_square = square-le (excess t i) h.0 in
    let no_wrap : u64 (cost + u64 square) ≡ cost + square = omega (arith, small) in
    let rest = add_sample-exact ts init (cost + square) h.2 (omega (arith, small)) in
    (
      ap (λ d. add_sample ts init (u64 (cost + u64 (d * d)))) (delta-excess t i h.0 h.1)
          ∙ ap (add_sample ts init) no_wrap
          ∙ omega (arith, rest.0),
      omega (arith, rest.1, small),
    )

-- Every sample has the temperatures of four cores.
abbrev pub FourCores : List Sample → Type 0
FourCores [] = Unit {0}
FourCores (s ∷ ss) = (length s.temp ≤ 4) × FourCores ss

add_samples-exact :
    (ss : List Sample) (init : List ℤ) (cost : ℕ)
    → FourCores ss
    → AllAtMost most_delta ss init
    → cost + length ss * (4 * most_square) < 2 ^ 64
    → (add_samples ss init cost ≡ cost + total_heat ss init)
      × (total_heat ss init ≤ length ss * (4 * most_square))
unfolding add_samples total_heat
add_samples-exact [] init cost f h b = (omega arith, omega arith)
add_samples-exact (s ∷ ss) init cost f h b =
    let one = add_sample-exact s.temp init cost h.0 (omega (arith, f.0)) in
    let rest =
      add_samples-exact ss init (cost + heat s.temp init) f.1 h.1 (omega (arith, one.1, f.0)) in
    (ap (add_samples ss init) one.0 ∙ omega (arith, rest.0), omega (arith, rest.1, one.1, f.0))

score_of-exact :
    (ops cost : ℕ)
    → ops < 2 ^ 40
    → cost < 2 ^ 64
    → score_of ops cost ≡ ops / bench_duration_sec * 100000 / (cost / 100000 + 1)
unfolding score_of
score_of-exact ops cost ho hc =
    ap₂ ◌/◌ (no_wrap (ops / bench_duration_sec * 100000) (omega arith))
      (no_wrap (cost / 100000 + 1) (omega arith))
  where
    no_wrap : (n : ℕ) → n < 2 ^ 64 → u64 n ≡ n
    no_wrap n h = omega arith

pub compute_score_exact :
    (c : Ctx) (s : Sample) (ss : List Sample)
    → c.samples ≡ s ∷ ss
    → length ss < 600
    → FourCores ss
    → AllAtMost most_delta ss s.temp
    → s.ops ≤ last_ops s ss
    → last_ops s ss < 2 ^ 40
    → compute_score c
      ≡ some (
          if c.invalid
          then 0
          else (last_ops s ss - s.ops)
            / bench_duration_sec
            * 100000
            / (total_heat ss s.temp / 100000 + 1))
unfolding compute_score
compute_score_exact c s ss e n f h mono small =
    let cost = add_samples-exact ss s.temp 0 f h (omega arith) in
    let ops : u64 (last_ops s ss + 2 ^ 64 - s.ops) ≡ last_ops s ss - s.ops = omega arith in
    let score =
      score_of-exact (last_ops s ss - s.ops) (total_heat ss s.temp) (omega arith)
        (omega (arith, cost.1)) in
    rw (e, compute_score, ops, cost.0)
      (ap (λ k. some (if c.invalid then 0 else k))
        (ap (score_of (last_ops s ss - s.ops)) (omega arith) ∙ score))

div_antitone : (n p q : ℕ) → 0 < q → q ≤ p → n / p ≤ n / q
div_antitone n p q hq h =
    let times_p : p * (n / p) ≤ n = mul-div-le n p in
    let times_q : n / p * q ≤ p * (n / p) = grind arith in
    (le-div_iff_mul-le hq).1 (omega (arith, times_p, times_q))

-- Of two runs with the same operations, the one with the larger penalty never scores higher.
pub hotter_never_better :
    (ops cool hot : ℕ) → cool ≤ hot → hot < 2 ^ 64 → score_of ops hot ≤ score_of ops cool
unfolding score_of
hotter_never_better ops cool hot h b =
    div_antitone (u64 (ops / bench_duration_sec * 100000)) (u64 (hot / 100000 + 1))
      (u64 (cool / 100000 + 1)) (omega arith) (omega arith)
