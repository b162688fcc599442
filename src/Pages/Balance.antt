-- ===== src/Pages/Balance.antt =====
-- What LKM/kmalloc_vs_vmalloc/kmalloc_vs_vmalloc.c takes from the page allocator and gives back.
use native.Mathlib.Nat.{add-zero, zero-add}
use linux_kernel_modules.Base.{
  ℕ, zero, suc, ◌+◌, ◌-◌, ◌*◌, ◌^◌, ◌≤◌, ◌<◌, ◌≡◌, refl, sym, ap, ◌∙◌, true, Option, none, some,
  List, [], ◌∷◌, ◌++◌, replicate, arith,
}
use linux_kernel_modules.Pages.{
  Slot, unset, null, block, Freed, free_pages, take_blocks, free_halves, fragment_memory,
  free_blocks, demo_exit, order_below,
}

-- How many pages the calls free.
abbrev pub pages : List Freed → ℕ
pages [] = 0
pages (f ∷ fs) = 2 ^ f.order + pages fs

pages-append : (xs ys : List Freed) → pages (xs ++ ys) ≡ pages xs + pages ys
pages-append [] ys = omega arith
pages-append (x ∷ xs) ys = omega (arith, pages-append xs ys)

pub take_blocks-some :
    (get : ℕ → Option ℕ) (left i p : ℕ)
    → get i ≡ some p
    → take_blocks get (suc left) i
      ≡ (block p ∷ (take_blocks get left (i + 1)).0, (take_blocks get left (i + 1)).1)
unfolding take_blocks
take_blocks-some get left i p e = rw (take_blocks, e) refl

pub take_blocks-none :
    (get : ℕ → Option ℕ) (left i : ℕ)
    → get i ≡ none
    → take_blocks get (suc left) i ≡ (null ∷ replicate left unset, i)
unfolding take_blocks
take_blocks-none get left i e = rw (take_blocks, e) refl

order_below_lem : (order : ℕ) → 0 < order → order ≤ 4294967296 → order_below order ≡ order - 1
unfolding order_below
order_below_lem order pos small = omega arith

-- What the loops do with `left` entries, all of them blocks.
record Whole (order left i : ℕ) (slots : List Slot × ℕ) : Type 0 where
  count : slots.1 ≡ i + left
  halves : pages (free_halves order left slots.0) ≡ left * 2 ^ order_below order
  freed : List Freed
  exit : free_blocks order left slots.0 ≡ some freed
  whole : pages freed ≡ left * 2 ^ order

one_more :
    (order left i p : ℕ) (slots : List Slot × ℕ)
    → Whole order left (i + 1) slots
    → Whole order (suc left) i (block p ∷ slots.0, slots.1)
unfolding free_halves free_blocks
one_more order left i p slots w = record {
  count = omega (arith, w.count);
  halves = grind (arith, w.halves);
  freed = free_pages p order ∷ w.freed;
  exit = rw w.exit refl;
  whole = grind (arith, w.whole);
}

all_blocks :
    (address : ℕ → ℕ) (get : ℕ → Option ℕ) (order left i : ℕ)
    → ((j : ℕ) → get j ≡ some (address j))
    → Whole order left i (take_blocks get left i)
unfolding take_blocks free_halves free_blocks
all_blocks address get order zero i h = record {
  count = omega arith;
  halves = omega arith;
  freed = [];
  exit = refl;
  whole = omega arith;
}
all_blocks address get order (suc left) i h = rw (take_blocks-some get left i (address i) (h i)) (
    one_more order left i (address i) (take_blocks get left (i + 1))
      (all_blocks address get order left (i + 1) h))

-- With every block granted, the module frees more pages than it was given: loading it frees the
-- half of each block, and unloading it the whole of each, that half once more.
pub frees_too_much :
    (address : ℕ → ℕ) (get : ℕ → Option ℕ) (frag_blocks frag_order : ℕ)
    → ((j : ℕ) → get j ≡ some (address j))
    → 0 < frag_order
    → frag_order ≤ 4294967296
    → let d = fragment_memory true get frag_blocks frag_order in
      (freed : List Freed) × (demo_exit frag_blocks frag_order d.blocks ≡ some freed)
      × (pages (d.freed ++ freed)
          ≡ frag_blocks * 2 ^ frag_order + frag_blocks * 2 ^ (frag_order - 1))
unfolding fragment_memory demo_exit
frees_too_much address get n order h pos small =
    let w = all_blocks address get order n 0 h in
    let count : (take_blocks get n 0).1 ≡ n = omega (arith, w.count) in
    (
      w.freed,
      w.exit,
      rw (count, sym (order_below_lem order pos small))
          (omega (
            arith,
            pages-append (free_halves order n (take_blocks get n 0).0) w.freed,
            w.halves,
            w.whole,
          )),
    )

free_blocks-unset : (n order : ℕ) → 0 < n → free_blocks order n (replicate n unset) ≡ none
unfolding free_blocks
free_blocks-unset zero order h = absurd (omega arith)
free_blocks-unset (suc n) order h = refl

free_blocks-short :
    (get : ℕ → Option ℕ) (left i k order : ℕ)
    → get (i + k) ≡ none
    → k + 1 < left
    → free_blocks order left (take_blocks get left i).0 ≡ none
unfolding take_blocks free_blocks
free_blocks-short get zero i k order e h = absurd (omega arith)
free_blocks-short get (suc left) i zero order e h =
    let now : get i ≡ none = rw (add-zero i) at e in
    rw (take_blocks-none get left i now) (free_blocks-unset left order (omega arith))
free_blocks-short get (suc left) i (suc k) order e h =
    let later : get (i + 1 + k) ≡ none = ap get (omega arith) ∙ e in
    go (free_blocks-short get left (i + 1) k order later (omega arith)) (get i) refl
  where
    go :
        free_blocks order left (take_blocks get left (i + 1)).0 ≡ none
        → (answer : Option ℕ) → get i ≡ answer
        → free_blocks order (suc left) (take_blocks get (suc left) i).0 ≡ none
    go rest none now =
        rw (take_blocks-none get left i now) (free_blocks-unset left order (omega arith))
    go rest (some p) now = rw (take_blocks-some get left i p now, free_blocks, rest) refl

-- When the memory runs out before the last block but one, unloading reads an entry of `blocks` that
-- was never written, to free what it holds.
pub reads_unset_block :
    (get : ℕ → Option ℕ) (k frag_blocks frag_order : ℕ)
    → get k ≡ none
    → k + 1 < frag_blocks
    → demo_exit frag_blocks frag_order (fragment_memory true get frag_blocks frag_order).blocks
      ≡ none
unfolding fragment_memory demo_exit
reads_unset_block get k n order e h = free_blocks-short get n 0 k order (rw (zero-add k) e) h
