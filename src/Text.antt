-- ===== src/Text.antt =====
-- The texts that the modules make of numbers with snprintf and seq_printf, as bytes, and how a reader
-- takes them apart again.
pub mod Decimal
use linux_kernel_modules.Base.{
  ℕ, zero, suc, ◌+◌, ◌-◌, ◌*◌, ◌/◌, ◌%◌, Bool, false, Option, none, some, List, [], ◌∷◌, ◌++◌, ◌==◌,
  ◌&&◌, ltb, leb, if◌then◌else◌, ℤ, pos, negsuc, take, ◌>>=◌,
}

-- The decimal digits of `n`, at most `places` of them, before `rest`.
unfoldable pub digits : (places n : ℕ) → List ℕ → List ℕ
digits zero n rest = rest
digits (suc places) n rest =
    let more = digits places (n / 10) ((48 + n % 10) ∷ rest) in
    if ltb n 10 then (48 + n) ∷ rest else more

-- "%d" and "%lld" of the integer types, whose values have 20 digits at most.
unfoldable pub decimal : ℤ → List ℕ → List ℕ
unfolding digits
decimal (pos n) rest = digits 20 n rest
decimal (negsuc n) rest = 45 ∷ digits 20 (n + 1) rest

-- What snprintf leaves in a buffer of `size` bytes, without the NUL.
abbrev pub written : (size : ℕ) → List ℕ → List ℕ
written size text = take (size - 1) text

abbrev pub is_digit : ℕ → Bool
is_digit c = leb 48 c && ltb c 58

-- The number that the digits in front continue, and what is behind them.
unfoldable pub scan : (so_far : ℕ) → List ℕ → ℕ × List ℕ
scan so_far [] = (so_far, [])
scan so_far (c ∷ cs) =
    let rest = scan (so_far * 10 + (c - 48)) cs in if is_digit c then rest else (so_far, c ∷ cs)

abbrev pub scan_signed : List ℕ → ℤ × List ℕ
scan_signed [] = (pos 0, [])
scan_signed (c ∷ cs) =
    if c == 45
    then (negsuc ((scan 0 cs).0 - 1), (scan 0 cs).1)
    else (pos (scan 0 (c ∷ cs)).0, (scan 0 (c ∷ cs)).1)

-- The rest of a text behind a given beginning.
abbrev pub expect : List ℕ → List ℕ → Option (List ℕ)
expect [] text = some text
expect (c ∷ cs) [] = none
expect (c ∷ cs) (x ∷ text) = if c == x then expect cs text else none

-- The number behind a label.
unfoldable pub number_after : List ℕ → List ℕ → Option (ℤ × List ℕ)
number_after label text = do rest ← expect label text; some (scan_signed rest)
