-- ===== src/Text/Decimal.antt =====
-- Reading a number back from its text.
use linux_kernel_modules.Base.{
  ℕ, zero, suc, take, ◌+◌, ◌-◌, ◌*◌, ◌/◌, ◌%◌, ◌^◌, ◌≤◌, ◌<◌, ◌≡◌, refl, ap, ◌∙◌, true, false, some,
  List, [], ◌∷◌, ◌++◌, ◌==◌, ltb, length, ℤ, pos, negsuc, arith, Bool-cases, ==_iff, inl, inr,
}
use linux_kernel_modules.Text.{digits, decimal, is_digit, scan, scan_signed, expect, number_after}

scan-digit :
    (so_far d : ℕ) (rest : List ℕ)
    → d < 10
    → scan so_far ((48 + d) ∷ rest) ≡ scan (so_far * 10 + d) rest
unfolding scan
scan-digit so_far d rest h =
    let digit : is_digit (48 + d) ≡ true = ground arith in
    let value : 48 + d - 48 ≡ d = omega arith in rw (digit, value) refl

tenth : (places n : ℕ) → n < 10 ^ suc places → n / 10 < 10 ^ places
tenth places n h = omega arith

-- The digits of a number below 10 ^ places are read as that number.
pub scan-digits :
    (places n : ℕ) (rest : List ℕ) → n < 10 ^ places → scan 0 (digits places n rest) ≡ scan n rest
unfolding digits
scan-digits zero n rest h = ap (λ k. scan k rest) (omega arith)
scan-digits (suc places) n rest h = elim (Bool-cases (ltb n 10)) [
  | inl small ↦ rw small (scan-digit 0 n rest (ground arith) ∙ ap (λ k. scan k rest) (omega arith))
  | inr big ↦ rw big (
      scan-digits places (n / 10) ((48 + n % 10) ∷ rest) (tenth places n h)
      ∙ scan-digit (n / 10) (n % 10) rest (omega arith)
      ∙ ap (λ k. scan k rest) (omega arith))
]

-- A text that does not begin with a digit ends the number before it.
abbrev pub Stops : List ℕ → Type 0
Stops [] = Unit {0}
Stops (c ∷ cs) = is_digit c ≡ false

pub scan-Stops : (n : ℕ) (rest : List ℕ) → Stops rest → scan n rest ≡ (n, rest)
unfolding scan
scan-Stops n [] h = refl
scan-Stops n (c ∷ cs) h = rw h refl

pub length-digits :
    (places n : ℕ) (rest : List ℕ) → length (digits places n rest) ≤ places + length rest
unfolding digits
length-digits zero n rest = omega arith
length-digits (suc places) n rest = elim (Bool-cases (ltb n 10)) [
  | inl small ↦ rw small (omega arith)
  | inr big ↦ rw big (omega (arith, length-digits places (n / 10) ((48 + n % 10) ∷ rest)))
]

pub expect-append : (text rest : List ℕ) → expect text (text ++ rest) ≡ some rest
expect-append [] rest = refl
expect-append (c ∷ cs) rest = rw ((==_iff c c).1 refl) (expect-append cs rest)

-- No minus sign in front.
abbrev pub Unsigned : List ℕ → Type 0
Unsigned [] = Unit {0}
Unsigned (c ∷ cs) = (c == 45) ≡ false

digits-Unsigned : (places n : ℕ) (rest : List ℕ) → Unsigned rest → Unsigned (digits places n rest)
unfolding digits
digits-Unsigned zero n rest h = h
digits-Unsigned (suc places) n rest h = elim (Bool-cases (ltb n 10)) [
  | inl small ↦ rw small (ground arith)
  | inr big ↦ rw big (digits-Unsigned places (n / 10) ((48 + n % 10) ∷ rest) (ground arith))
]

unsigned_lem :
    (text : List ℕ) → Unsigned text → scan_signed text ≡ (pos (scan 0 text).0, (scan 0 text).1)
unfolding scan
unsigned_lem [] h = refl
unsigned_lem (c ∷ cs) h = rw h refl

-- The values that 20 digits can show.
abbrev pub Shown : ℤ → Type 0
Shown (pos n) = n < 10 ^ 20
Shown (negsuc n) = n + 1 < 10 ^ 20

-- A number is read back from its text, up to what follows it.
pub scan_signed-decimal :
    (v : ℤ) (rest : List ℕ)
    → Shown v
    → Stops rest
    → Unsigned rest
    → scan_signed (decimal v rest) ≡ (v, rest)
unfolding decimal
scan_signed-decimal (pos n) rest shown stops unsigned =
    unsigned_lem (digits 20 n rest) (digits-Unsigned 20 n rest unsigned)
    ∙ ap (λ (r : ℕ × List ℕ). (pos r.0, r.1))
        (scan-digits 20 n rest shown ∙ scan-Stops n rest stops)
scan_signed-decimal (negsuc n) rest shown stops unsigned =
    ap (λ (r : ℕ × List ℕ). (negsuc (r.0 - 1), r.1))
      (scan-digits 20 (n + 1) rest shown ∙ scan-Stops (n + 1) rest stops)
    ∙ ap (λ k. (negsuc k, rest)) (omega arith)

pub length-decimal : (v : ℤ) (rest : List ℕ) → length (decimal v rest) ≤ 21 + length rest
unfolding decimal
length-decimal (pos n) rest = omega (arith, length-digits 20 n rest)
length-decimal (negsuc n) rest = omega (arith, length-digits 20 (n + 1) rest)

pub number_after-decimal :
    (label : List ℕ) (v : ℤ) (rest : List ℕ)
    → Shown v
    → Stops rest
    → Unsigned rest
    → number_after label (label ++ decimal v rest) ≡ some (v, rest)
unfolding number_after
number_after-decimal label v rest shown stops unsigned =
    rw (expect-append label (decimal v rest))
      (ap some (scan_signed-decimal v rest shown stops unsigned))

-- What is taken from a text that is shorter.
pub take-long : (n : ℕ) (text : List ℕ) → length text ≤ n → take n text ≡ text
take-long zero [] h = refl
take-long zero (c ∷ cs) h = absurd (omega arith)
take-long (suc n) [] h = refl
take-long (suc n) (c ∷ cs) h = ap (λ l. c ∷ l) (take-long n cs (omega arith))
