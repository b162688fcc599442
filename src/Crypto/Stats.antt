-- ===== src/Crypto/Stats.antt =====
-- The file /proc/crypto_challenge/stats of LKM/crypto_challenge/crypto_challenge.c: `stats_read`.
use linux_kernel_modules.Base.{
  ℕ, ◌-◌, ◌^◌, ◌≤◌, ◌<◌, ◌≡◌, refl, ap, ◌∙◌, Option, some, List, [], ◌∷◌, ◌++◌, ltb, length,
  if◌then◌else◌, take, drop, ℤ, pos, negsuc, arith, ◌>>=◌, length-append, Bool-cases, inl, inr,
}
use linux_kernel_modules.Text.{decimal, written, number_after}
use linux_kernel_modules.UserCopy.{take-append_exact}
use linux_kernel_modules.Text.Decimal.{Shown, length-decimal, take-long, number_after-decimal}

-- The fields of `struct challenge_ctx` that are shown; `final_score` is a `u64`.
pub record Stats : Type 0 where
  pub ops : ℤ
  pub sample_count : ℤ
  pub final_score : ℕ
  pub invalid : ℤ

-- A `u64` shown by "%lld".
unfoldable pub as_s64 : ℕ → ℤ
as_s64 n = if ltb n (2 ^ 63) then pos n else negsuc (2 ^ 64 - 1 - n)

-- "ops=", " samples=", " score=", " invalid=".
abbrev pub ops_label : List ℕ
ops_label = 111 ∷ 112 ∷ 115 ∷ 61 ∷ []

abbrev pub samples_label : List ℕ
samples_label = 32 ∷ 115 ∷ 97 ∷ 109 ∷ 112 ∷ 108 ∷ 101 ∷ 115 ∷ 61 ∷ []

abbrev pub score_label : List ℕ
score_label = 32 ∷ 115 ∷ 99 ∷ 111 ∷ 114 ∷ 101 ∷ 61 ∷ []

abbrev pub invalid_label : List ℕ
invalid_label = 32 ∷ 105 ∷ 110 ∷ 118 ∷ 97 ∷ 108 ∷ 105 ∷ 100 ∷ 61 ∷ []

-- What the format and the fields make.
unfoldable pub stats_text : Stats → List ℕ
stats_text s =
    ops_label
    ++ decimal s.ops (
        samples_label
        ++ decimal s.sample_count (
            score_label
            ++ decimal (as_s64 s.final_score) (invalid_label ++ decimal s.invalid (10 ∷ []))))

-- `simple_read_from_buffer(buf, len, ppos, out, l)`: the bytes that reach the user.
module _ (simple_read_from_buffer : (len ppos : ℕ) → List ℕ → (l : ℕ) → List ℕ) where
  -- `junk`: the NUL behind the text in `out`, and what the stack held.
  unfoldable pub stats_read : (junk : List ℕ) (len ppos : ℕ) → Stats → List ℕ
  stats_read junk len ppos s =
      simple_read_from_buffer len ppos (written 256 (stats_text s) ++ junk) (length (stats_text s))

-- A reader of the text.
unfoldable pub parse_stats : List ℕ → Option (ℤ × ℤ × ℤ × ℤ)
parse_stats text = do
  ops ← number_after ops_label text
  samples ← number_after samples_label ops.1
  score ← number_after score_label samples.1
  invalid ← number_after invalid_label score.1
  some (ops.0, samples.0, score.0, invalid.0)

as_s64-Shown : (n : ℕ) → n < 2 ^ 64 → Shown (as_s64 n)
unfolding as_s64
as_s64-Shown n h = elim (Bool-cases (ltb n (2 ^ 63))) [
  | inl small ↦ rw small (omega arith)
  | inr big ↦ rw big (omega arith)
]

stats_text-fits : (s : Stats) → length (stats_text s) ≤ 255
unfolding stats_text
stats_text-fits s = omega (
  arith,
  length-decimal s.ops (
      samples_label
      ++ decimal s.sample_count (
          score_label
          ++ decimal (as_s64 s.final_score) (invalid_label ++ decimal s.invalid (10 ∷ [])))),
  length-decimal s.sample_count (
      score_label ++ decimal (as_s64 s.final_score) (invalid_label ++ decimal s.invalid (10 ∷ []))),
  length-decimal (as_s64 s.final_score) (invalid_label ++ decimal s.invalid (10 ∷ [])),
  length-decimal s.invalid (10 ∷ []),
)

-- Documented: of the first `l` bytes of the buffer, the `len` behind the offset.
abbrev pub Copies : ((len ppos : ℕ) → List ℕ → (l : ℕ) → List ℕ) → Type 0
Copies f =
    (len ppos : ℕ) (out : List ℕ) (l : ℕ)
    → l ≤ length out
    → f len ppos out l ≡ take len (drop ppos (take l out))

-- The text never outgrows the buffer of 256 bytes, whatever the fields hold: a read gets the part of
-- the text that it asks for, and nothing of what the stack held behind it.
pub stats_read_lem :
    (f : (len ppos : ℕ) → List ℕ → (l : ℕ) → List ℕ) (junk : List ℕ) (len ppos : ℕ) (s : Stats)
    → Copies f
    → stats_read f junk len ppos s ≡ take len (drop ppos (stats_text s))
unfolding stats_read
stats_read_lem f junk len ppos s copies =
    let all : take 255 (stats_text s) ≡ stats_text s =
      take-long 255 (stats_text s) (stats_text-fits s) in
    rw
      (
        all,
        copies len ppos (stats_text s ++ junk) (length (stats_text s))
            (omega (arith, length-append (stats_text s) junk)),
        take-append_exact (stats_text s) junk (length (stats_text s)) refl,
      )
      refl

parse_stats-stats_text :
    (s : Stats)
    → Shown s.ops
    → Shown s.sample_count
    → Shown s.invalid
    → s.final_score < 2 ^ 64
    → parse_stats (stats_text s) ≡ some (s.ops, s.sample_count, as_s64 s.final_score, s.invalid)
unfolding parse_stats stats_text
parse_stats-stats_text s o c i fits =
    let score = as_s64 s.final_score in
    let invalid = invalid_label ++ decimal s.invalid (10 ∷ []) in
    let samples = samples_label ++ decimal s.sample_count (score_label ++ decimal score invalid) in
    rw
      (
        number_after-decimal ops_label s.ops samples o refl refl,
        number_after-decimal samples_label s.sample_count (score_label ++ decimal score invalid) c
            refl refl,
        number_after-decimal score_label score invalid (as_s64-Shown s.final_score fits) refl refl,
        number_after-decimal invalid_label s.invalid (10 ∷ []) i refl refl,
      )
      refl

-- A read of 256 bytes or more from the beginning of the file shows the operations, the samples, the
-- score and the verdict as they are; the score as a signed number.
pub parse_stats-stats_read :
    (f : (len ppos : ℕ) → List ℕ → (l : ℕ) → List ℕ) (junk : List ℕ) (len : ℕ) (s : Stats)
    → Copies f
    → 255 ≤ len
    → Shown s.ops
    → Shown s.sample_count
    → Shown s.invalid
    → s.final_score < 2 ^ 64
    → parse_stats (stats_read f junk len 0 s)
      ≡ some (s.ops, s.sample_count, as_s64 s.final_score, s.invalid)
parse_stats-stats_read f junk len s copies h o c i fits =
    ap parse_stats (
      stats_read_lem f junk len 0 s copies
      ∙ take-long len (stats_text s) (omega (arith, stats_text-fits s)))
    ∙ parse_stats-stats_text s o c i fits
