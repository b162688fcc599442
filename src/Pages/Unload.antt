-- ===== src/Pages/Unload.antt =====
-- What unloading LKM/kmalloc_vs_vmalloc/kmalloc_vs_vmalloc.c frees when its parameters have been
-- written since it was loaded.
use linux_kernel_modules.Base.{
  ℕ, zero, suc, ◌+◌, ◌≤◌, ◌<◌, ◌≡◌, refl, ap, true, Option, none, some, List, [], ◌∷◌,
  if◌then◌else◌, leb, replicate, min, arith,
}
use linux_kernel_modules.Pages.{
  unset, Freed, free_pages, take_blocks, free_halves, fragment_memory, free_blocks, demo_exit,
  order_below,
}
use linux_kernel_modules.Pages.Balance.{take_blocks-some, take_blocks-none}

-- One `free_pages` for each of `n` blocks from block `i` on.
unfoldable pub freed_from : (address : ℕ → ℕ) (order n i : ℕ) → List Freed
freed_from address order zero i = []
freed_from address order (suc n) i =
    free_pages (address i) order ∷ freed_from address order n (i + 1)

-- The first `k` of the `left` blocks from block `i` on are granted, and the one behind them is not.
record Granted (address : ℕ → ℕ) (get : ℕ → Option ℕ) (left i k : ℕ) : Type 0 where
  within : k ≤ left
  given : (j : ℕ) → j < k → get (i + j) ≡ some (address (i + j))
  refused : k < left → get (i + k) ≡ none

-- What the last loop frees, `now` being the number it counts to.
abbrev pub freed_or_lost : (address : ℕ → ℕ) (order now left i k : ℕ) → Option (List Freed)
freed_or_lost address order now left i k =
    if leb now (min left (k + 1)) then some (freed_from address order (min now k) i) else none

later :
    (address : ℕ → ℕ) (get : ℕ → Option ℕ) (left i k : ℕ)
    → Granted address get (suc left) i (suc k)
    → Granted address get left (i + 1) k
later address get left i k g =
    let shift : (j : ℕ) → i + 1 + j ≡ i + suc j = λ j. omega arith in
    record {
      within = omega (arith, g.within);
      given = λ j h. rw (shift j) (g.given (suc j) (omega arith));
      refused = λ h. rw (shift k) (g.refused (omega arith));
    }

first_given :
    (address : ℕ → ℕ) (get : ℕ → Option ℕ) (left i k : ℕ)
    → Granted address get left i (suc k)
    → get i ≡ some (address i)
first_given address get left i k g =
    let e : i + 0 ≡ i = omega arith in rw e at (g.given 0 (omega arith))

first_refused :
    (address : ℕ → ℕ) (get : ℕ → Option ℕ) (left i : ℕ)
    → Granted address get (suc left) i 0
    → get i ≡ none
first_refused address get left i g =
    let e : i + 0 ≡ i = omega arith in rw e at (g.refused (omega arith))

free_blocks-unset :
    (order now left : ℕ)
    → free_blocks order now (replicate left unset) ≡ (if leb now 0 then some [] else none)
unfolding free_blocks
free_blocks-unset order zero left = refl
free_blocks-unset order (suc now) zero = ground arith
free_blocks-unset order (suc now) (suc left) = ground arith

free_blocks-take_blocks :
    (address : ℕ → ℕ) (get : ℕ → Option ℕ) (order now left i k : ℕ)
    → Granted address get left i k
    → free_blocks order now (take_blocks get left i).0 ≡ freed_or_lost address order now left i k
unfolding free_blocks take_blocks freed_from
free_blocks-take_blocks address get order zero left i k g =
    let e : min 0 k ≡ 0 = omega arith in rw e (ground arith)
free_blocks-take_blocks address get order (suc now) zero i k g = ground arith
free_blocks-take_blocks address get order (suc now) (suc left) i zero g =
    rw (take_blocks-none get left i (first_refused address get left i g)) (
      let e : min (suc now) 0 ≡ 0 = omega arith in
      let f : min (suc left) (0 + 1) ≡ 1 = omega arith in
      rw (freed_or_lost, e, f) (ground (arith, free_blocks-unset order now left)))
free_blocks-take_blocks address get order (suc now) (suc left) i (suc k) g =
    rw (take_blocks-some get left i (address i) (first_given address get (suc left) i k g)) (
      ground (
        arith,
        free_blocks-take_blocks address get order now left (i + 1) k (later address get left i k g),
      ))

free_halves-take_blocks :
    (address : ℕ → ℕ) (get : ℕ → Option ℕ) (order left i k : ℕ)
    → Granted address get left i k
    → ((take_blocks get left i).1 ≡ i + k)
      × (free_halves order k (take_blocks get left i).0
          ≡ freed_from address (order_below order) k i)
unfolding free_halves take_blocks freed_from
free_halves-take_blocks address get order zero i zero g = (omega arith, refl)
free_halves-take_blocks address get order zero i (suc k) g = absurd (omega (arith, g.within))
free_halves-take_blocks address get order (suc left) i zero g =
    rw (take_blocks-none get left i (first_refused address get left i g)) (omega arith, refl)
free_halves-take_blocks address get order (suc left) i (suc k) g =
    let rest =
      free_halves-take_blocks address get order left (i + 1) k (later address get left i k g) in
    rw (take_blocks-some get left i (address i) (first_given address get (suc left) i k g))
      (omega (arith, rest.0), ap (λ l. free_pages (address i) (order_below order) ∷ l) rest.1)

-- Of `frag_blocks` blocks the first `k` are granted and no more; when the module is unloaded, the
-- parameters have come to say `now` and `order`. Loading it frees the lower half of each block
-- granted. Unloading it reads only entries of `blocks` that were written exactly when `now` is
-- neither above `frag_blocks` nor above `k + 1`; it then frees the first `now` of the blocks, once
-- more, with the order of now, and keeps what is left of the others for ever.
pub unload_lem :
    (address : ℕ → ℕ) (get : ℕ → Option ℕ) (frag_blocks frag_order k now order : ℕ)
    → k ≤ frag_blocks
    → ((j : ℕ) → j < k → get j ≡ some (address j))
    → (k < frag_blocks → get k ≡ none)
    → let d = fragment_memory true get frag_blocks frag_order in
      (d.freed ≡ freed_from address (order_below frag_order) k 0)
      × (demo_exit now order d.blocks ≡ (
          if leb now (min frag_blocks (k + 1))
          then some (freed_from address order (min now k) 0)
          else none))
unfolding fragment_memory demo_exit
unload_lem address get n frag_order k now order within given refused =
    let zeros : (j : ℕ) → 0 + j ≡ j = λ j. omega arith in
    let g : Granted address get n 0 k = record {
      within = within;
      given = λ j h. rw (zeros j) (given j h);
      refused = λ h. rw (zeros k) (refused h);
    } in
    let h = free_halves-take_blocks address get frag_order n 0 k g in
    (rw (h.0, zeros k) h.1, free_blocks-take_blocks address get order now n 0 k g)
