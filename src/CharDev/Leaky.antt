-- ===== src/CharDev/Leaky.antt =====
-- LKM/memory_leak/buggy_leaky_device.c: a buffer that is never cleared. The module's parameter
-- `buffer_size` is taken as fixed here, and as written at any time in Resized.
pub mod Demo
pub mod Resized
pub mod Whole
use linux_kernel_modules.Base.{
  ℕ, zero, suc, ◌+◌, ◌-◌, ◌<◌, ◌≡◌, refl, ap, ap₂, ◌∙◌, Bool, false, Option, none, some, List, [],
  ◌∷◌, ◌++◌, leb, if◌then◌else◌, length, take, drop, min, arith, Ret, ok, fail, efault, enomem,
  length-append, length-drop,
}
use linux_kernel_modules.UserCopy.{copied_in}

-- `buffer` is `none` for a NULL pointer; otherwise the bytes of the allocation.
pub record Device : Type 0 where
  pub buffer : Option (List ℕ)
  pub buffer_size : ℕ

-- A read: the bytes that reach the user, the new offset, and the return value.
pub record Reading : Type 0 where
  pub out : List ℕ
  pub offset : ℕ
  pub ret : Ret

-- `dev_read` of a buffer that is there.
unfoldable pub dev_read : (fault : Bool) (len offset : ℕ) → List ℕ → ℕ → Reading
dev_read fault len offset buffer buffer_size =
    let to_copy = min len (buffer_size - offset) in
    if leb buffer_size offset
    then record { out = []; offset = offset; ret = ok 0 }
    else if fault
    then record { out = []; offset = offset; ret = fail efault }
    else record {
      out = take to_copy (drop offset buffer);
      offset = offset + to_copy;
      ret = ok to_copy;
    }

-- The buffer that `dev_write` writes to: the one that is there, or a new one, `heap`, with whatever
-- kmalloc gives.
abbrev pub target : Option (List ℕ) → Device → Option (List ℕ)
target heap d = elim d.buffer [ none ↦ heap | some b ↦ some b ]

-- `dev_write` from the copy on.
abbrev pub write_to : Option (List ℕ) → (missing : ℕ) → List ℕ → Device → Device × Ret
write_to none missing src d = (d, fail enomem)
write_to (some b) missing src d =
    let to_copy = min (length src) d.buffer_size in
    (
      record d { buffer = some (copied_in to_copy missing src b) },
      elim missing [ zero ↦ ok to_copy | suc n ↦ fail efault ],
    )

-- `dev_write`; `missing` is what `copy_from_user` returns. The device, and the return value.
unfoldable pub dev_write : (heap : Option (List ℕ)) (missing : ℕ) → List ℕ → Device → Device × Ret
dev_write heap missing src d = write_to (target heap d) missing src d

min_of : {n m : ℕ} → n < m → min n m ≡ n
min_of h = ground arith

pub leb-false : {n m : ℕ} → n < m → leb m 0 ≡ false
leb-false h = ground arith

pub take_all : (n : ℕ) (xs : List ℕ) → length xs ≡ n → take n xs ≡ xs
take_all zero [] h = refl
take_all zero (x ∷ xs) h = absurd (omega arith)
take_all (suc n) [] h = refl
take_all (suc n) (x ∷ xs) h = ap (λ l. x ∷ l) (take_all n xs (omega arith))

minus_zero : (n : ℕ) → n - 0 ≡ n
minus_zero n = omega arith

write_part : (src old : List ℕ) → copied_in (length src) 0 src old ≡ src ++ drop (length src) old
write_part src old =
    rw (minus_zero (length src))
      (ap (λ l. l ++ drop (length src) old) (take_all (length src) src refl))

-- A write shorter than the buffer, then a read of the whole: the reader gets the bytes written and,
-- behind them, the bytes that the buffer held before, whoever wrote them or freed them to the heap.
pub read-write_leaks :
    (heap : Option (List ℕ)) (src old : List ℕ) (d : Device)
    → target heap d ≡ some old
    → length old ≡ d.buffer_size
    → length src < d.buffer_size
    → let new = src ++ drop (length src) old in
      (dev_write heap 0 src d ≡ (record d { buffer = some new }, ok (length src)))
      × ((dev_read false d.buffer_size 0 new d.buffer_size).out ≡ new)
unfolding dev_write dev_read
read-write_leaks heap src old d e h lt = (
  ap (λ t. write_to t 0 src d) e
      ∙ ap₂ (λ b n. (record d { buffer = some b }, ok n))
          (ap (λ n. copied_in n 0 src old) (min_of lt) ∙ write_part src old) (min_of lt),
  rw (leb-false lt, minus_zero d.buffer_size)
      (take_all _ _
        (omega (arith, length-append src (drop (length src) old), length-drop (length src) old))),
)
