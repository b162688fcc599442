-- ===== src/UserCopy.antt =====
-- What `copy_from_user` leaves in a buffer of the kernel, for LKM/mutex_sleep_ioctl_exercise
-- (fixed_device.c, buggy_device.c), LKM/chrdev_read_write, LKM/chrdev_mutex and LKM/GPIO_LCD.
-- The function returns how many bytes at the end it could not read, and is documented to put zeros
-- in their place.
use linux_kernel_modules.Base.{
  ℕ, zero, suc, ◌-◌, ◌≤◌, ◌≡◌, refl, sym, ap, ◌∙◌, List, [], ◌∷◌, ◌++◌, length, take, drop,
  replicate, arith, append_assoc, length-append, length-take, length-drop, length-replicate,
}

-- The buffer after a copy of the first `wanted` bytes of `src`, the last `missing` of them unread.
abbrev pub copied_in : (wanted missing : ℕ) → List ℕ → List ℕ → List ℕ
copied_in wanted missing src buf =
    take (wanted - missing) src ++ (replicate missing 0 ++ drop wanted buf)

length-replicate-zeros : (n : ℕ) → length (replicate {A = ℕ} n 0) ≡ n
length-replicate-zeros n = length-replicate n 0

pub length-copied_in :
    (wanted missing : ℕ) (src buf : List ℕ)
    → wanted ≤ length src
    → missing ≤ wanted
    → wanted ≤ length buf
    → length (copied_in wanted missing src buf) ≡ length buf
length-copied_in wanted missing src buf hs hm hb = omega (
  arith,
  length-append (take (wanted - missing) src) (replicate missing 0 ++ drop wanted buf),
  length-append (replicate missing 0) (drop wanted buf),
  length-take (wanted - missing) src,
  length-replicate-zeros missing,
  length-drop wanted buf,
)

-- A prefix of a longer prefix.
pub take-take :
    (n m : ℕ) (src rest : List ℕ)
    → n ≤ m
    → m ≤ length src
    → take n (take m src ++ rest) ≡ take n src
take-take zero m src rest hn hs = refl
take-take (suc n) zero src rest hn hs = absurd (omega arith)
take-take (suc n) (suc m) [] rest hn hs = absurd (omega arith)
take-take (suc n) (suc m) (x ∷ src) rest hn hs =
    ap (λ l. x ∷ l) (take-take n m src rest (omega arith) (omega arith))

pub take-append_exact : (xs ys : List ℕ) (n : ℕ) → length xs ≡ n → take n (xs ++ ys) ≡ xs
take-append_exact [] ys zero h = refl
take-append_exact [] ys (suc n) h = absurd (omega arith)
take-append_exact (x ∷ xs) ys zero h = absurd (omega arith)
take-append_exact (x ∷ xs) ys (suc n) h = ap (λ l. x ∷ l) (take-append_exact xs ys n (omega arith))

pub take-replicate :
    (n m : ℕ) (rest : List ℕ) → n ≤ m → take n (replicate m 0 ++ rest) ≡ replicate n 0
take-replicate zero m rest h = refl
take-replicate (suc n) zero rest h = absurd (omega arith)
take-replicate (suc n) (suc m) rest h = ap (λ l. 0 ∷ l) (take-replicate n m rest (omega arith))

-- What can be read of the copy, up to the first unread byte.
pub take-copied_in :
    (n wanted missing : ℕ) (src buf : List ℕ)
    → n ≤ wanted - missing
    → wanted ≤ length src
    → take n (copied_in wanted missing src buf) ≡ take n src
take-copied_in n wanted missing src buf hn hs =
    take-take n (wanted - missing) src _ hn (omega arith)

-- The whole copy.
pub take-copied_in_all :
    (wanted missing : ℕ) (src buf : List ℕ)
    → missing ≤ wanted
    → wanted ≤ length src
    → take wanted (copied_in wanted missing src buf)
      ≡ take (wanted - missing) src ++ replicate missing 0
take-copied_in_all wanted missing src buf hm hs =
    ap (take wanted)
      (sym (append_assoc (take (wanted - missing) src) (replicate missing 0) (drop wanted buf)))
    ∙ take-append_exact (take (wanted - missing) src ++ replicate missing 0) (drop wanted buf)
        wanted
        (omega (
          arith,
          length-append (take (wanted - missing) src) (replicate missing 0),
          length-take (wanted - missing) src,
          length-replicate-zeros missing,
        ))
