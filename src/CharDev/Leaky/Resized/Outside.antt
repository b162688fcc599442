-- ===== src/CharDev/Leaky/Resized/Outside.antt =====
-- When the reads and writes of LKM/memory_leak/buggy_leaky_device.c reach outside the allocation, its
-- parameter `buffer_size` being written at any time.
use linux_kernel_modules.Base.{
  ℕ, zero, suc, ◌-◌, ◌≤◌, ◌<◌, ◌≡◌, ◌↔◌, inl, inr, refl, sym, ap, ap₂, ◌∙◌, Bool, Option, none,
  some, List, [], ◌∷◌, leb, length, min, arith, Bool-cases, leb→le, Ret,
}
use mathlib.Core.Path.{subst}
use linux_kernel_modules.UserCopy.{copied_in, length-copied_in}
use linux_kernel_modules.CharDev.Leaky.{Device, dev_write, target, write_to}
use linux_kernel_modules.CharDev.Leaky.Resized.{
  read_anywhere, junk, kmalloc, copied, write_anywhere, Op, read, write, set_size, step, run,
  leaky_init,
}

-- What the operations alone tell: the parameter, and what it was when memory was first given, at the
-- load or, where that failed, at a write.
pub record Sizes : Type 0 where
  pub now : ℕ
  pub first : Option ℕ

abbrev pub or_else : Option ℕ → Option (ℕ → ℕ) → ℕ → Option ℕ
or_else (some n) heap now = some n
or_else none none now = none
or_else none (some old) now = some now

abbrev pub noted : Op → Sizes → Sizes
noted (read fault len offset) s = s
noted (write heap readable src) s = record s { first = or_else s.first heap s.now }
noted (set_size n) s = record s { now = n }

abbrev pub after : List Op → Sizes → Sizes
after [] s = s
after (o ∷ os) s = after os (noted o s)

-- Nothing was allocated, or less than `n`.
abbrev pub Short : ℕ → Option ℕ → Type 0
Short n none = Unit {0}
Short n (some size) = size < n

abbrev held : Option (List ℕ) → Option ℕ
held none = none
held (some b) = some (length b)

record Tracks (s : Sizes) (d : Device) : Type 0 where
  now : d.buffer_size ≡ s.now
  first : held d.buffer ≡ s.first

length-junk : (old : ℕ → ℕ) (n : ℕ) → length (junk old n) ≡ n
length-junk old zero = refl
length-junk old (suc n) = ap suc (length-junk old n)

held-target :
    (heap : Option (ℕ → ℕ)) (d : Device)
    → held (target (kmalloc heap d.buffer_size) d) ≡ or_else (held d.buffer) heap d.buffer_size
held-target heap d = go d.buffer heap
  where
    go :
        (b : Option (List ℕ)) (h : Option (ℕ → ℕ))
        → held (elim b [ none ↦ kmalloc h d.buffer_size | some x ↦ some x ])
          ≡ or_else (held b) h d.buffer_size
    go none none = refl
    go none (some old) = ap some (length-junk old d.buffer_size)
    go (some x) h = refl

-- A write that stays inside leaves an allocation of the size that it found, or made.
copied_held :
    (new block : Option (List ℕ)) (readable : ℕ) (src : List ℕ) (d d' : Device) (ret : Ret)
    → target new d ≡ block
    → copied new block readable src d ≡ some (d', ret)
    → (held d'.buffer ≡ held block) × (d'.buffer_size ≡ d.buffer_size)
unfolding dev_write
copied_held new none readable src d d' ret e h = (ground arith, ground arith)
copied_held new (some b) readable src d d' ret e h = elim (Bool-cases (leb n (length b))) [
  | inr past ↦ absurd (ground arith)
  | inl inside ↦
      let same : (write_to (some b) m src d).0 ≡ d' = ground arith in
      let len : length (copied_in n m src b) ≡ length b =
        length-copied_in n m src b (ground arith) (omega arith) (leb→le _ _ inside) in
      (
        ap (λ (x : Device). held x.buffer) (sym same) ∙ ap some len,
        ap (λ (x : Device). x.buffer_size) (sym same),
      )
]
  where
    n : ℕ
    n = min (length src) d.buffer_size

    m : ℕ
    m = n - readable

write-Tracks :
    (heap : Option (ℕ → ℕ)) (readable : ℕ) (src : List ℕ) (s : Sizes) (d d' : Device) (ret : Ret)
    → Tracks s d
    → write_anywhere heap readable src d ≡ some (d', ret)
    → Tracks (record s { first = or_else s.first heap s.now }) d'
unfolding write_anywhere
write-Tracks heap readable src s d d' ret t e =
    let kept = copied_held (kmalloc heap d.buffer_size) _ readable src d d' ret refl e in
    record {
      now = kept.1 ∙ t.now;
      first =
          kept.0
          ∙ held-target heap d
          ∙ ap₂ (λ (f : Option ℕ) (n : ℕ). or_else f heap n) t.first t.now;
    }

step-Tracks :
    (o : Op) (s : Sizes) (d d' : Device) → Tracks s d → step o d ≡ some d' → Tracks (noted o s) d'
unfolding step
step-Tracks (read fault len offset) s d d' t e =
    let same : d ≡ d' = ground arith in subst (Tracks s) same t
step-Tracks (write heap readable src) s d d' t e = go (write_anywhere heap readable src d) refl e
  where
    go :
        (r : Option (Device × Ret))
        → write_anywhere heap readable src d ≡ r
        → (elim r [ none ↦ none | some x ↦ some x.0 ]) ≡ some d'
        → Tracks (record s { first = or_else s.first heap s.now }) d'
    go none h e' = cc
    go (some (x, ret)) h e' =
        write-Tracks heap readable src s d d' ret t
          (h ∙ ap (λ (y : Device). some (y, ret)) (ground arith))
step-Tracks (set_size n) s d d' t e = subst (Tracks (record s { now = n })) (ground arith) (
    let u : Tracks (record s { now = n }) (record d { buffer_size = n }) = record {
      now = refl;
      first = t.first;
    } in
    u)

run-Tracks :
    (os : List Op) (s : Sizes) (d d' : Device)
    → Tracks s d
    → run os d ≡ some d'
    → Tracks (after os s) d'
unfolding run
run-Tracks [] s d d' t e = subst (Tracks s) (ground arith) t
run-Tracks (o ∷ os) s d d' t e = go (step o d) refl e (run-Tracks os (noted o s))
  where
    go :
        (r : Option Device)
        → step o d ≡ r
        → (elim r [ none ↦ none | some x ↦ run os x ]) ≡ some d'
        → ((x x' : Device)
            → Tracks (noted o s) x
            → run os x ≡ some x'
            → Tracks (after os (noted o s)) x')
        → Tracks (after os (noted o s)) d'
    go none h e' rest = cc
    go (some x) h e' rest = rest x d' (step-Tracks o s d x t h) e'

read_outside :
    (fault : Bool) (len offset : ℕ) (b : Option (List ℕ)) (n : ℕ)
    → let d : Device = record { buffer = b; buffer_size = n } in
      (read_anywhere fault len offset d ≡ none) ↔ ((offset < n) × Short n (held b))
unfolding read_anywhere
read_outside fault len offset none n = (λ h. (ground arith, tt), λ h. ground arith)
read_outside fault len offset (some x) n = (λ h. (ground arith, ground arith), λ h. ground arith)

min-le : (m n : ℕ) → min m n ≤ n
min-le m n = omega arith

write_outside :
    (heap : Option (ℕ → ℕ)) (readable : ℕ) (src : List ℕ) (b : Option (List ℕ)) (size : ℕ)
    → let d : Device = record { buffer = b; buffer_size = size } in
      (write_anywhere heap readable src d ≡ none)
      ↔ ((n : ℕ) × (held b ≡ some n) × (n < min (length src) size))
unfolding write_anywhere
write_outside none readable src none size = (λ h. absurd (cc), λ w. absurd (cc (w.1)))
write_outside (some old) readable src none size = (
  λ h. absurd (ground (arith, length-junk old size, min-le (length src) size)),
  λ w. absurd (cc (w.1)),
)
write_outside heap readable src (some x) size = (
  λ h. (length x, refl, ground arith),
  λ w. let e : length x ≡ w.0 = ground (arith, w.1) in ground (arith, w.2),
)

at_load : (heap : Option (ℕ → ℕ)) (size : ℕ) → held (kmalloc heap size) ≡ or_else none heap size
at_load none size = refl
at_load (some old) size = ap some (length-junk old size)

-- After a load and any writes of the parameter, reads and writes that stay inside the allocation: a
-- read reaches outside exactly when it begins before the end that the parameter gives, and the
-- parameter is now above what it was when the allocation was made, or none was (the load was refused
-- memory, and so was each write since); a write, exactly when there is an allocation, and the bytes
-- that it copies are more than the parameter was then.
pub outside_iff :
    (given : Option (ℕ → ℕ)) (size : ℕ) (os : List Op) (d : Device) (fault : Bool) (len offset : ℕ)
    (heap : Option (ℕ → ℕ)) (readable : ℕ) (src : List ℕ)
    → run os (leaky_init given size) ≡ some d
    → let s = after os (record { now = size; first = or_else none given size }) in
      ((read_anywhere fault len offset d ≡ none) ↔ ((offset < s.now) × Short s.now s.first))
      × ((write_anywhere heap readable src d ≡ none)
          ↔ ((n : ℕ) × (s.first ≡ some n) × (n < min (length src) s.now)))
outside_iff given size os d fault len offset heap readable src e =
    let t =
      run-Tracks os (record { now = size; first = or_else none given size }) (leaky_init given size)
        d (record { now = refl; first = at_load given size }) e in
    rw (← t.now, ← t.first)
      (
        read_outside fault len offset d.buffer d.buffer_size,
        write_outside heap readable src d.buffer d.buffer_size,
      )
