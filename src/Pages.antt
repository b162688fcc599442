-- ===== src/Pages.antt =====
-- LKM/kmalloc_vs_vmalloc/kmalloc_vs_vmalloc.c: the blocks of pages that the module takes to fragment
-- memory, and gives back. `frag_blocks` and `frag_order` are parameters that can be written while the
-- module is loaded (mode 0644), so that unloading may find other values than loading. The timing of
-- allocations is left out.
pub mod Balance
pub mod Run
pub mod Unload
pub mod Zones
use linux_kernel_modules.Base.{
  ℕ, zero, suc, ◌+◌, ◌%◌, Bool, true, false, Option, none, some, List, [], ◌∷◌, if◌then◌else◌,
  replicate, ℤ, pos, negsuc,
}

-- An entry of `blocks`: never written since `kmalloc_array`, NULL, or the address of a block.
pub data Slot : Type 0 where
  unset null : Slot
  block : (address : ℕ) → Slot

-- A call `free_pages(address, order)`.
pub record Freed : Type 0 where
  pub address : ℕ
  pub order : ℕ

abbrev pub free_pages : ℕ → ℕ → Freed
free_pages address order = record { address = address; order = order }

-- `frag_order - 1`, as the `unsigned int` that `free_pages` takes.
unfoldable pub order_below : ℕ → ℕ
order_below order = (order + 4294967295) % 4294967296

-- The first loop of `fragment_memory` from `i` on, `left` being `frag_blocks - i`: the entries, and
-- the value of `i` behind it. `get i` is what `__get_free_pages` returns.
unfoldable pub take_blocks : (get : ℕ → Option ℕ) (left i : ℕ) → List Slot × ℕ
take_blocks get zero i = ([], i)
take_blocks get (suc left) i =
    let rest = take_blocks get left (i + 1) in
    elim (get i) [ none ↦ (null ∷ replicate left unset, i) | some p ↦ (block p ∷ rest.0, rest.1) ]

-- The second loop, over the first `i` entries.
unfoldable pub free_halves : (frag_order i : ℕ) → List Slot → List Freed
unfolding order_below
free_halves frag_order zero slots = []
free_halves frag_order (suc i) [] = []
free_halves frag_order (suc i) (block p ∷ slots) =
    free_pages p (order_below frag_order) ∷ free_halves frag_order i slots
free_halves frag_order (suc i) (unset ∷ slots) = free_halves frag_order i slots
free_halves frag_order (suc i) (null ∷ slots) = free_halves frag_order i slots

-- What `fragment_memory` leaves: `blocks`, `none` being NULL, what it freed, and its return value.
pub record Fragmented : Type 0 where
  pub blocks : Option (List Slot)
  pub freed : List Freed
  pub ret : ℤ

-- `array`: whether `kmalloc_array` gave memory.
unfoldable pub fragment_memory :
    (array : Bool) (get : ℕ → Option ℕ) (frag_blocks frag_order : ℕ) → Fragmented
unfolding take_blocks free_halves
fragment_memory array get frag_blocks frag_order =
    let slots = take_blocks get frag_blocks 0 in
    if array
    then record {
      blocks = some slots.0;
      freed = free_halves frag_order slots.1 slots.0;
      ret = pos 0;
    }
    else record { blocks = none; freed = []; ret = negsuc 11 }

-- The loop of `demo_exit` over the entries `i` with `i < frag_blocks`; `none`: it reads an entry that
-- was never written, or one behind the end of `blocks`.
unfoldable pub free_blocks : (frag_order frag_blocks : ℕ) → List Slot → Option (List Freed)
free_blocks frag_order zero slots = some []
free_blocks frag_order (suc left) [] = none
free_blocks frag_order (suc left) (unset ∷ slots) = none
free_blocks frag_order (suc left) (null ∷ slots) = free_blocks frag_order left slots
free_blocks frag_order (suc left) (block p ∷ slots) = elim (free_blocks frag_order left slots) [
  | none ↦ none
  | some freed ↦ some (free_pages p frag_order ∷ freed)
]

unfoldable pub demo_exit : (frag_blocks frag_order : ℕ) → Option (List Slot) → Option (List Freed)
unfolding free_blocks
demo_exit frag_blocks frag_order none = some []
demo_exit frag_blocks frag_order (some slots) = free_blocks frag_order frag_blocks slots
