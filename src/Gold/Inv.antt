-- ===== src/Gold/Inv.antt =====
-- The invariant of the gold device's ring, and what its loops do to the bytes it holds.
use native.Mathlib.Nat.{add-zero}
use native.Mathlib.Numerals.{add-one}
use linux_kernel_modules.Base.{
  ℕ, zero, suc, ◌+◌, ◌-◌, ◌%◌, ◌≤◌, ◌<◌, ◌≡◌, ◌≢◌, refl, sym, ap, ◌∙◌, Bool, true, List, [], ◌∷◌,
  ◌++◌, arith, min, length, take, get_or, length-set, Ret, ok, fail, efault, ◌==◌, Bool-cases, inl,
  inr, append-nil, append_assoc,
}
use linux_kernel_modules.Window.{items, items-push, items-cons, length-items}
use linux_kernel_modules.Gold.Device.{
  GoldDev, buf_size, buffer_empty, buffer_full, Outcome, read_loop, write_loop, advance_tail,
  store_head, Wake, nobody, readers, writers, cons_out,
}

pub record IsValid (d : GoldDev) : Type 0 where
  pub storage : length d.buffer ≡ buf_size
  pub tail_in : d.tail < buf_size
  pub size_in : d.size ≤ buf_size
  pub head_at : d.head ≡ (d.tail + d.size) % buf_size

-- The bytes written and not yet read, oldest first.
abbrev pub contents : GoldDev → List ℕ
contents d = items buf_size 0 d.buffer d.tail d.size

pub length-contents : (d : GoldDev) → length (contents d) ≡ d.size
length-contents d = length-items buf_size 0 d.buffer d.tail d.size

pub advance_tail-IsValid : (d : GoldDev) → IsValid d → d.size ≢ 0 → IsValid (advance_tail d)
advance_tail-IsValid d v h = omega arith

pub store_head-IsValid :
    (d : GoldDev) (c : ℕ) → IsValid d → d.size ≢ buf_size → IsValid (store_head c d)
store_head-IsValid d c v h = omega (arith, length-set d.buffer d.head c)

-- The byte at `tail` is the oldest one.
pub contents-advance_tail :
    (d : GoldDev)
    → IsValid d
    → d.size ≢ 0
    → contents d ≡ get_or d.buffer d.tail 0 ∷ contents (advance_tail d)
contents-advance_tail d v h =
    let e : d.size ≡ suc (d.size - 1) = omega arith in
    ap (items buf_size 0 d.buffer d.tail) e
    ∙ items-cons buf_size 0 d.buffer d.tail (d.size - 1) v.tail_in

-- A stored byte becomes the newest one.
pub contents-store_head :
    (d : GoldDev) (c : ℕ)
    → IsValid d
    → d.size ≢ buf_size
    → contents (store_head c d) ≡ contents d ++ (c ∷ [])
contents-store_head d c v h =
    rw (v.head_at, add-one)
      (items-push buf_size 0 d.buffer d.tail d.size c v.tail_in (omega arith) (omega arith))

-- How a loop that moved `moved` bytes may end: having moved all that it could, or at a fault.
abbrev pub Ends : (ℕ → Bool) → (copied moved most : ℕ) → Wake → Wake → Ret → Type 0
Ends fault copied moved most woken wake (ok n) =
    (n ≡ copied + moved) × (moved ≡ most) × (wake ≡ woken)
Ends fault copied moved most woken wake (fail e) =
    (e ≡ efault) × (moved < most) × (fault (copied + moved) ≡ true) × (wake ≡ nobody)

-- What the read loop has done when it returns: the ring is valid, what was in it is split between
-- the user and the ring, and it stopped for a reason.
pub record Reads (fault : ℕ → Bool) (left copied : ℕ) (d : GoldDev) (o : Outcome) : Type 0 where
  pub valid : IsValid o.dev
  pub split : contents d ≡ o.out ++ contents o.dev
  pub ends : Ends fault copied (length o.out) (min left d.size) writers o.wake o.ret

Ends-shift :
    (fault : ℕ → Bool) (copied moved most : ℕ) (woken wake : Wake) (r : Ret)
    → Ends fault (copied + 1) moved most woken wake r
    → Ends fault copied (suc moved) (suc most) woken wake r
Ends-shift fault copied moved most woken wake (ok n) h = ground arith
Ends-shift fault copied moved most woken wake (fail e) h =
    let e' : copied + suc moved ≡ copied + 1 + moved = omega arith in
    rw e' (h.0, omega arith, h.2, h.3)

read_loop-some :
    (fault : ℕ → Bool) (left copied : ℕ) (d : GoldDev) (o : Outcome)
    → IsValid d
    → d.size ≢ 0
    → Reads fault left (copied + 1) (advance_tail d) o
    → Reads fault (suc left) copied d (cons_out (get_or d.buffer d.tail 0) o)
read_loop-some fault left copied d o v h r = record {
  valid = r.valid;
  split = contents-advance_tail d v h ∙ ap (λ xs. get_or d.buffer d.tail 0 ∷ xs) r.split;
  ends = rw most (Ends-shift fault copied (length o.out) _ writers o.wake o.ret r.ends);
}
  where
    most : min (suc left) d.size ≡ suc (min left (d.size - 1))
    most = omega arith

pub read_loop-Reads :
    (fault : ℕ → Bool) (left copied : ℕ) (d : GoldDev)
    → IsValid d
    → Reads fault left copied d (read_loop fault left copied d)
unfolding read_loop buffer_empty
read_loop-Reads fault zero copied d v = record {
  valid = v;
  split = refl;
  ends = (omega arith, omega arith, refl);
}
read_loop-Reads fault (suc left) copied d v = elim (Bool-cases (d.size == 0)) [
  | inl e ↦ rw e (record { valid = v; split = refl; ends = ground arith })
  | inr n ↦ rw n (elim (Bool-cases (fault copied)) [
    | inl f ↦
        rw f (record { valid = v; split = refl; ends = (refl, ground arith, rw add-zero f, refl) })
    | inr g ↦ rw g (
        read_loop-some fault left copied d _ v (ground arith) (
          read_loop-Reads fault left (copied + 1) (advance_tail d)
            (advance_tail-IsValid d v (ground arith))))
  ])
]

-- What the write loop has done when it returns: the bytes that it took stand behind the old ones.
pub record Writes (fault : ℕ → Bool) (src : List ℕ) (copied : ℕ) (d : GoldDev) (o : Outcome)
    : Type 0 where
  pub valid : IsValid o.dev
  pub taken : ℕ
  pub silent : o.out ≡ []
  pub appended : contents o.dev ≡ contents d ++ take taken src
  pub ends : Ends fault copied taken (min (length src) (buf_size - d.size)) readers o.wake o.ret

write_loop-some :
    (fault : ℕ → Bool) (c : ℕ) (src : List ℕ) (copied : ℕ) (d : GoldDev) (o : Outcome)
    → IsValid d
    → d.size ≢ buf_size
    → Writes fault src (copied + 1) (store_head c d) o
    → Writes fault (c ∷ src) copied d o
write_loop-some fault c src copied d o v h w = record {
  valid = w.valid;
  taken = suc w.taken;
  silent = w.silent;
  appended =
      w.appended
      ∙ ap (λ xs. xs ++ take w.taken src) (contents-store_head d c v h)
      ∙ append_assoc (contents d) (c ∷ []) (take w.taken src);
  ends = rw most (Ends-shift fault copied w.taken _ readers o.wake o.ret w.ends);
}
  where
    most :
        min (suc (length src)) (buf_size - d.size)
        ≡ suc (min (length src) (buf_size - (d.size + 1)))
    most = omega (arith, v.size_in)

pub write_loop-Writes :
    (fault : ℕ → Bool) (src : List ℕ) (copied : ℕ) (d : GoldDev)
    → IsValid d
    → Writes fault src copied d (write_loop fault src copied d)
unfolding write_loop buffer_full
write_loop-Writes fault [] copied d v = record {
  valid = v;
  taken = 0;
  silent = refl;
  appended = sym (append-nil (contents d));
  ends = (omega arith, omega arith, refl);
}
write_loop-Writes fault (c ∷ src) copied d v = elim (Bool-cases (d.size == buf_size)) [
  | inl e ↦ rw e (record {
    valid = v;
    taken = 0;
    silent = refl;
    appended = sym (append-nil (contents d));
    ends = ground arith;
  })
  | inr n ↦ rw n (elim (Bool-cases (fault copied)) [
    | inl f ↦ rw f (record {
      valid = v;
      taken = 0;
      silent = refl;
      appended = sym (append-nil (contents d));
      ends = (refl, ground (arith, v.size_in), rw add-zero f, refl);
    })
    | inr g ↦ rw g (
        write_loop-some fault c src copied d _ v (ground arith) (
          write_loop-Writes fault src (copied + 1) (store_head c d)
            (store_head-IsValid d c v (ground arith))))
  ])
]
