-- ===== src/Pages/Run.antt =====
-- `run_test` and `demo_init` of LKM/kmalloc_vs_vmalloc/kmalloc_vs_vmalloc.c: the allocations that are
-- timed. The times and the printing of zones are left out.
use linux_kernel_modules.Base.{
  ℕ, zero, suc, ◌+◌, ◌≡◌, refl, ◌∙◌, Bool, true, false, not, Option, none, some, List, [], ◌∷◌,
  ◌++◌, ◌==◌, ==_iff, ◌&&◌, if◌then◌else◌, ℤ, pos, negsuc, ◌>>=◌, Bool-cases, inl, inr,
}
use linux_kernel_modules.Kernel.{is_zero}
use linux_kernel_modules.Pages.{Fragmented, fragment_memory}

pub data Allocator : Type 0 where
  contiguous virtual : Allocator

-- A call: memory given at an address, or refused, or given back.
pub data Event : Type 0 where
  given : Allocator → (address : ℕ) → Event
  refused : Allocator → Event
  returned : Allocator → (address : ℕ) → Event

-- One allocation of the loop: what comes is given back at once, with `kfree` or `vfree`.
abbrev pub attempt : Allocator → Option ℕ → List Event
attempt how none = refused how ∷ []
attempt how (some p) = given how p ∷ returned how p ∷ []

-- `run_test` from `i` on, `left` being `repeat - i`. `kmalloc i` and `vmalloc i` are what the calls
-- of run `i` return.
unfoldable pub run_test : (kmalloc vmalloc : ℕ → Option ℕ) (left i : ℕ) → List Event
run_test kmalloc vmalloc zero i = []
run_test kmalloc vmalloc (suc left) i =
    attempt contiguous (kmalloc i)
    ++ (attempt virtual (vmalloc i) ++ run_test kmalloc vmalloc left (i + 1))

-- `demo_init`: the blocks of `fragment_memory`, the events of the test, and the return value.
unfoldable pub demo_init :
    (array : Bool) (get kmalloc vmalloc : ℕ → Option ℕ) (frag_blocks frag_order runs : ℕ)
    → Fragmented × List Event × ℤ
unfolding fragment_memory run_test
demo_init array get kmalloc vmalloc frag_blocks frag_order runs =
    let f = fragment_memory array get frag_blocks frag_order in
    if not (is_zero f.ret) then (f, [], negsuc 11) else (f, run_test kmalloc vmalloc runs 0, pos 0)

abbrev pub same : Allocator → Allocator → Bool
same contiguous contiguous = true
same virtual virtual = true
same contiguous virtual = false
same virtual contiguous = false

-- Memory in use: the allocator and the address.
abbrev pub Memory : Type 0
Memory = List (Allocator × ℕ)

-- Giving memory back; `none`: it is not in use, or came from the other allocator.
abbrev pub give_back : Allocator → ℕ → Memory → Option Memory
give_back how p [] = none
give_back how p (b ∷ bs) =
    let rest = give_back how p bs in
    if same how b.0 && (p == b.1) then some bs else (do others ← rest; some (b ∷ others))

abbrev pub use_memory : Event → Memory → Option Memory
use_memory (given how p) m = some ((how, p) ∷ m)
use_memory (refused how) m = some m
use_memory (returned how p) m = give_back how p m

unfoldable pub after_events : List Event → Memory → Option Memory
after_events [] m = some m
after_events (e ∷ es) m = do next ← use_memory e m; after_events es next

same_refl : (how : Allocator) → same how how ≡ true
same_refl contiguous = refl
same_refl virtual = refl

attempt_lem :
    (how : Allocator) (p : Option ℕ) (es : List Event) (m : Memory)
    → after_events (attempt how p ++ es) m ≡ after_events es m
unfolding after_events
attempt_lem how none es m = refl
attempt_lem how (some p) es m = rw (same_refl how, (==_iff p p).1 refl) refl

run_test_lem :
    (kmalloc vmalloc : ℕ → Option ℕ) (left i : ℕ) (m : Memory)
    → after_events (run_test kmalloc vmalloc left i) m ≡ some m
unfolding run_test after_events
run_test_lem kmalloc vmalloc zero i m = refl
run_test_lem kmalloc vmalloc (suc left) i m =
    attempt_lem contiguous (kmalloc i) _ m
    ∙ attempt_lem virtual (vmalloc i) _ m
    ∙ run_test_lem kmalloc vmalloc left (i + 1) m

-- Whatever is granted, the test of `demo_init` gives back all it takes, each block to the allocator
-- it came from, and nothing else: behind it the memory in use is what it was.
pub demo_init_balanced :
    (array : Bool) (get kmalloc vmalloc : ℕ → Option ℕ) (frag_blocks frag_order runs : ℕ)
    (m : Memory)
    → after_events (demo_init array get kmalloc vmalloc frag_blocks frag_order runs).1 m ≡ some m
unfolding demo_init after_events
demo_init_balanced array get kmalloc vmalloc frag_blocks frag_order runs m =
    elim (Bool-cases (is_zero (fragment_memory array get frag_blocks frag_order).ret)) [
      | inl ran ↦ rw ran (run_test_lem kmalloc vmalloc runs 0 m)
      | inr failed ↦ rw failed refl
    ]
