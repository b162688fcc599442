-- ===== src/Crypto/Sampling.antt =====
-- The samples that the timer of crypto_challenge.c takes: `read_temp` and `sample_fn`.
use linux_kernel_modules.Base.{
  ℕ, ◌≡◌, refl, Bool, true, false, ◌||◌, Option, none, some, List, [], ◌∷◌, ◌++◌, map, ltb,
  if◌then◌else◌, length, ℤ, pos, ltb_ℤ, arith,
}

abbrev pub max_samples : ℕ
max_samples = 600

abbrev pub thermal_limit_millic : ℤ
thermal_limit_millic = pos 65000

-- `struct sample`: the operations so far, and the temperatures of the four cores.
pub record Sample : Type 0 where
  pub ops : ℕ
  pub temp : List ℤ

-- The part of `struct challenge_ctx` that sampling and scoring use; the list holds the first
-- `sample_count` samples. `invalid` is 0 or 1.
pub record Ctx : Type 0 where
  pub samples : List Sample
  pub invalid : Bool

-- After `start_sampling`, of a context that `mod_init` has zeroed.
abbrev pub started : Ctx
started = record { samples = []; invalid = false }

-- A thermal zone as a tick finds it: absent, failing, or with its temperature.
abbrev pub Zone : Type 0
Zone = Option (Option ℤ)

unfoldable pub read_temp : Zone → ℤ
read_temp none = pos 0
read_temp (some none) = pos 0
read_temp (some (some temp)) = temp

abbrev pub hot : ℤ → Bool
hot temp = ltb_ℤ thermal_limit_millic temp

-- Whether one of the cores is over the limit.
unfoldable pub any_hot : List ℤ → Bool
any_hot [] = false
any_hot (t ∷ ts) = hot t || any_hot ts

-- What a tick finds: the counter of operations, and the zones of the cores.
pub record Tick : Type 0 where
  pub ops : ℕ
  pub zones : List Zone

abbrev pub sample_of : Tick → Sample
sample_of t = record { ops = t.ops; temp = map read_temp t.zones }

-- `sample_fn`; the Boolean says that the timer is set again.
unfoldable pub sample_fn : Tick → Ctx → Ctx × Bool
unfolding any_hot
sample_fn t c =
    if ltb (length c.samples) max_samples
    then (
      record {
        samples = c.samples ++ (sample_of t ∷ []);
        invalid = c.invalid || any_hot (sample_of t).temp;
      },
      true,
    )
    else (c, false)

-- The timer runs as long as it is set again.
unfoldable pub sampling : List Tick → Ctx → Ctx
sampling [] c = c
sampling (t ∷ ts) c =
    let rest = sampling ts (sample_fn t c).0 in if (sample_fn t c).1 then rest else c

-- Whether a sample of the list shows a core over the limit.
unfoldable pub overheated : List Sample → Bool
overheated [] = false
overheated (s ∷ ss) = any_hot s.temp || overheated ss

overheated-append : (xs ys : List Sample) → overheated (xs ++ ys) ≡ (overheated xs || overheated ys)
unfolding overheated
overheated-append [] ys = refl
overheated-append (x ∷ xs) ys = ground (arith, overheated-append xs ys)

abbrev pub with_sample : Tick → Ctx → Ctx
with_sample t c = record {
  samples = c.samples ++ (sample_of t ∷ []);
  invalid = c.invalid || any_hot (sample_of t).temp;
}

pub still_right :
    (t : Tick) (c : Ctx)
    → c.invalid ≡ overheated c.samples
    → (with_sample t c).invalid ≡ overheated (with_sample t c).samples
unfolding overheated
still_right t c i = ground (arith, overheated-append c.samples (sample_of t ∷ []))
