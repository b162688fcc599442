-- ===== src/Window.antt =====
-- Circular buffers: the items that stand in `n` consecutive slots, going round at the end. Shared
-- by the ring of LKM/mutex_sleep_ioctl_exercise/gold_device.c and the one of
-- LKM/Keyboard_monitor/kbdmon_chrdev.c.
use native.Mathlib.Nat.{mod-lt, mod-add-mod, mod-eq_of_lt, mod-eq-sub-mod, add-zero}
use linux_kernel_modules.Base.{
  ℕ, zero, suc, ◌+◌, ◌-◌, ◌%◌, ◌≤◌, ◌<◌, ◌≡◌, refl, ap, ap₂, ◌∙◌, append-nil, append_assoc, ◌≢◌,
  List, [], ◌∷◌, ◌++◌, ◌⊎◌, inl, inr, dec_lt, arith, length, get_or, set, length-append,
}

module _ {ℓ} {A : Type ℓ} where
  pub get_or-set_self :
      (xs : List A) (i : ℕ) (v d : A) → i < length xs → get_or (set xs i v) i d ≡ v
  get_or-set_self [] i v d h = absurd (omega arith)
  get_or-set_self (x ∷ xs) zero v d h = refl
  get_or-set_self (x ∷ xs) (suc i) v d h = get_or-set_self xs i v d (omega arith)

  pub get_or-set_ne :
      (xs : List A) (i j : ℕ) (v d : A) → i ≢ j → get_or (set xs i v) j d ≡ get_or xs j d
  get_or-set_ne [] i j v d h = refl
  get_or-set_ne (x ∷ xs) zero zero v d h = absurd (h refl)
  get_or-set_ne (x ∷ xs) zero (suc j) v d h = refl
  get_or-set_ne (x ∷ xs) (suc i) zero v d h = refl
  get_or-set_ne (x ∷ xs) (suc i) (suc j) v d h = get_or-set_ne xs i j v d (λ e. h (ap suc e))

module _ {ℓ} {A : Type ℓ} (cap : ℕ) (blank : A) where
  -- Oldest first: slots `start`, `start + 1`, ..., modulo `cap`.
  abbrev pub items : List A → ℕ → ℕ → List A
  items buf start zero = []
  items buf start (suc n) = items buf start n ++ (get_or buf ((start + n) % cap) blank ∷ [])

  pub length-items : (buf : List A) (start n : ℕ) → length (items buf start n) ≡ n
  length-items buf start zero = refl
  length-items buf start (suc n) = omega (
    arith,
    length-items buf start n,
    length-append (items buf start n) (get_or buf ((start + n) % cap) blank ∷ []),
  )

  -- One slot further, then `n` more.
  next_slot : (start n : ℕ) → (start + suc n) % cap ≡ ((start + 1) % cap + n) % cap
  next_slot start n = rw mod-add-mod (ap (λ k. k % cap) (omega arith))

  -- The oldest item split off.
  pub items-cons :
      (buf : List A) (start n : ℕ)
      → start < cap
      → items buf start (suc n) ≡ get_or buf start blank ∷ items buf ((start + 1) % cap) n
  items-cons buf start zero h =
      let at_start : (start + 0) % cap ≡ start = in_range in
      ap (λ k. get_or buf k blank ∷ []) at_start
    where
      in_range : (start + 0) % cap ≡ start
      in_range = rw (add-zero, mod-eq_of_lt h)
  items-cons buf start (suc n) h = rw (items-cons buf start n h, next_slot start n)

  -- The first `m` items, and the `n` behind them.
  pub items-add :
      (buf : List A) (start m n : ℕ)
      → items buf start (m + n) ≡ items buf start m ++ items buf ((start + m) % cap) n
  items-add buf start m zero = rw (add-zero, append-nil) refl
  items-add buf start m (suc n) =
      let one_more : m + suc n ≡ suc (m + n) = omega arith in
      let at_end : (start + (m + n)) % cap ≡ ((start + m) % cap + n) % cap =
        rw mod-add-mod (ap (λ k. k % cap) (omega arith)) in
      rw one_more (
        ap₂ (λ xs k. xs ++ (get_or buf k blank ∷ [])) (items-add buf start m n) at_end
        ∙ append_assoc (items buf start m) (items buf ((start + m) % cap) n) _)

  -- Adding less than `cap` goes round at most once.
  round_once :
      (start n : ℕ)
      → start < cap
      → n < cap
      → ((start + n) % cap ≡ start + n) ⊎ ((start + n) % cap + cap ≡ start + n)
  round_once start n hs hn = elim (dec_lt (start + n) cap) [
    | yes p ↦ inl (mod-eq_of_lt p)
    | no p ↦ inr (
        omega (
          arith,
          mod-eq-sub-mod {n = start + n} {m = cap} (omega arith),
          mod-eq_of_lt {n = start + n - cap} {m = cap} (omega arith),
        ))
  ]

  slots_differ :
      (start k n : ℕ) → start < cap → k < n → n < cap → (start + n) % cap ≢ (start + k) % cap
  slots_differ start k n hs hk hn e =
      omega (arith, round_once start n hs hn, round_once start k hs (omega arith))

  -- A write to a later slot leaves the items alone.
  pub items-set :
      (buf : List A) (start n k : ℕ) (v : A)
      → start < cap
      → k ≤ n
      → n < cap
      → items (set buf ((start + n) % cap) v) start k ≡ items buf start k
  items-set buf start n zero v hs hk hn = refl
  items-set buf start n (suc k) v hs hk hn =
      ap₂ (λ xs x. xs ++ (x ∷ [])) (items-set buf start n k v hs (omega arith) hn)
        (get_or-set_ne buf ((start + n) % cap) ((start + k) % cap) v blank
          (slots_differ start k n hs hk hn))

  -- A write to the slot behind the items appends it.
  pub items-push :
      (buf : List A) (start n : ℕ) (v : A)
      → start < cap
      → n < cap
      → cap ≤ length buf
      → items (set buf ((start + n) % cap) v) start (suc n) ≡ items buf start n ++ (v ∷ [])
  items-push buf start n v hs hn hl =
      ap₂ (λ xs x. xs ++ (x ∷ [])) (items-set buf start n n v hs (omega arith) hn)
        (get_or-set_self buf ((start + n) % cap) v blank
          (omega (arith, mod-lt (start + n) {m = cap} (omega arith))))
