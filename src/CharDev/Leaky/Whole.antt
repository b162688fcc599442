-- ===== src/CharDev/Leaky/Whole.antt =====
-- A client of LKM/memory_leak/buggy_leaky_device.c that reads the file in pieces to its end.
use linux_kernel_modules.Base.{
  ℕ, zero, suc, ◌+◌, ◌-◌, ◌≤◌, ◌<◌, ◌≡◌, refl, sym, ap, ◌∙◌, false, Option, none, some, List, [],
  ◌∷◌, ◌++◌, length, take, drop, min, arith, ok, fail, take-append-drop, dec_lt,
}
use linux_kernel_modules.CharDev.Leaky.{Reading, dev_read}

-- What one read adds to what the later ones, `rest`, bring.
abbrev pub joined : Reading → (rest : Option (List ℕ)) → Option (List ℕ)
joined r rest = elim r.ret [
  | ok zero ↦ some []
  | ok (suc n) ↦ elim rest [ none ↦ none | some out ↦ some (r.out ++ out) ]
  | fail e ↦ none
]

-- Reads of `len` bytes until one returns 0; `none`: a read fails, or `fuel` reads were not enough.
unfoldable pub read_to_end : (fuel len offset : ℕ) → List ℕ → (buffer_size : ℕ) → Option (List ℕ)
read_to_end zero len offset buffer buffer_size = none
read_to_end (suc fuel) len offset buffer buffer_size =
    let r = dev_read false len offset buffer buffer_size in
    joined r (read_to_end fuel len r.offset buffer buffer_size)

suc-add : (m n : ℕ) → suc m + n ≡ suc (m + n)
suc-add m n = omega arith

drop-empty : (n : ℕ) → drop {A = ℕ} n [] ≡ []
drop-empty zero = refl
drop-empty (suc n) = refl

drop-add : (m n : ℕ) (xs : List ℕ) → drop (m + n) xs ≡ drop n (drop m xs)
drop-add zero n xs = ap (λ k. drop k xs) (omega arith)
drop-add (suc m) n [] = ap (λ k. drop k []) (suc-add m n) ∙ sym (drop-empty n)
drop-add (suc m) n (x ∷ xs) = ap (λ k. drop k (x ∷ xs)) (suc-add m n) ∙ drop-add m n xs

joined-piece :
    (n offset : ℕ) (out rest : List ℕ)
    → 0 < n
    → joined (record { out = out; offset = offset; ret = ok n }) (some rest) ≡ some (out ++ rest)
joined-piece zero offset out rest h = absurd (omega arith)
joined-piece (suc n) offset out rest h = refl

drop-nil : (n : ℕ) (xs : List ℕ) → length xs ≤ n → drop n xs ≡ []
drop-nil zero [] h = refl
drop-nil zero (x ∷ xs) h = absurd (omega arith)
drop-nil (suc n) [] h = refl
drop-nil (suc n) (x ∷ xs) h = drop-nil n xs (omega arith)

dev_read-past :
    (len offset : ℕ) (buffer : List ℕ) (size : ℕ)
    → size ≤ offset
    → dev_read false len offset buffer size ≡ record { out = []; offset = offset; ret = ok 0 }
unfolding dev_read
dev_read-past len offset buffer size h = ground arith

dev_read-piece :
    (len offset : ℕ) (buffer : List ℕ) (size : ℕ)
    → offset < size
    → let n = min len (size - offset) in
      dev_read false len offset buffer size
      ≡ record { out = take n (drop offset buffer); offset = offset + n; ret = ok n }
unfolding dev_read
dev_read-piece len offset buffer size h = ground arith

-- However small the pieces, the client comes to the end of the buffer, after one read more than there
-- are bytes at most, with every byte behind the offset that it began at.
pub read_to_end_lem :
    (fuel len offset : ℕ) (buffer : List ℕ) (buffer_size : ℕ)
    → length buffer ≡ buffer_size
    → 0 < len
    → buffer_size - offset < fuel
    → read_to_end fuel len offset buffer buffer_size ≡ some (drop offset buffer)
unfolding read_to_end
read_to_end_lem zero len offset buffer size h pos enough = absurd (omega arith)
read_to_end_lem (suc fuel) len offset buffer size h pos enough = elim (dec_lt offset size) [
  | no past ↦
      ap (λ (r : Reading). joined r (read_to_end fuel len r.offset buffer size))
        (dev_read-past len offset buffer size (omega arith))
      ∙ ap some (sym (drop-nil offset buffer (omega arith)))
  | yes before ↦
      let n : ℕ = min len (size - offset) in
      ap (λ (r : Reading). joined r (read_to_end fuel len r.offset buffer size))
        (dev_read-piece len offset buffer size (omega arith))
      ∙ ap (joined (record { out = take n (drop offset buffer); offset = offset + n; ret = ok n }))
          (read_to_end_lem fuel len (offset + n) buffer size h pos (omega arith))
      ∙ joined-piece n (offset + n) (take n (drop offset buffer)) (drop (offset + n) buffer)
          (omega arith)
      ∙ ap some (
          ap (λ l. take n (drop offset buffer) ++ l) (drop-add offset n buffer)
          ∙ take-append-drop n (drop offset buffer))
]
