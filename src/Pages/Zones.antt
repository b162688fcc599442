-- ===== src/Pages/Zones.antt =====
-- `print_all_zones` of LKM/kmalloc_vs_vmalloc/kmalloc_vs_vmalloc.c: the free blocks of each order, as
-- the page allocator lists them.
use linux_kernel_modules.Base.{
  ℕ, zero, suc, ◌+◌, ◌≡◌, Bool, List, [], ◌∷◌, ◌++◌, if◌then◌else◌, get_or, arith, ◌≤◌, refl, ap,
  ◌∙◌, length, take,
}

-- `struct zone`: its name, whether it has pages, and the free blocks of each order.
pub record Zone : Type 0 where
  pub name : ℕ
  pub populated : Bool
  pub nr_free : List ℕ

-- What is printed: the head of the list, a zone of a node, and its counts.
pub data Line : Type 0 where
  head : Line
  zone : (node name : ℕ) → Line
  orders : List ℕ → Line

abbrev pub max_order_print : ℕ
max_order_print = 11

-- The loop over the orders, `left` being `MAX_ORDER_PRINT - order`.
unfoldable pub counts : (left order : ℕ) → List ℕ → List ℕ
counts zero order nr_free = []
counts (suc left) order nr_free = get_or nr_free order 0 ∷ counts left (order + 1) nr_free

-- The zones of node `node`.
unfoldable pub print_zones : (node : ℕ) → List Zone → List Line
unfolding counts
print_zones node [] = []
print_zones node (z ∷ zones) =
    let rest = print_zones node zones in
    if z.populated
    then zone node z.name ∷ (orders (counts max_order_print 0 z.nr_free) ∷ rest)
    else rest

-- The nodes that are online, each with its number.
unfoldable pub print_nodes : List (ℕ × List Zone) → List Line
unfolding print_zones
print_nodes [] = []
print_nodes ((node, zones) ∷ nodes) = print_zones node zones ++ print_nodes nodes

unfoldable pub print_all_zones : List (ℕ × List Zone) → List Line
unfolding print_nodes
print_all_zones nodes = head ∷ print_nodes nodes

counts-cons :
    (left order x : ℕ) (xs : List ℕ) → counts left (suc order) (x ∷ xs) ≡ counts left order xs
unfolding counts
counts-cons zero order x xs = refl
counts-cons (suc left) order x xs =
    let e : suc order + 1 ≡ suc (order + 1) = omega arith in
    rw e (ap (λ l. get_or xs order 0 ∷ l) (counts-cons left (order + 1) x xs))

-- Of a zone with so many orders, the first `left` are printed.
pub counts-take :
    (left : ℕ) (nr_free : List ℕ)
    → left ≤ length nr_free
    → counts left 0 nr_free ≡ take left nr_free
unfolding counts
counts-take zero nr_free h = refl
counts-take (suc left) [] h = absurd (omega arith)
counts-take (suc left) (x ∷ xs) h =
    ap (λ l. x ∷ l) (counts-cons left 0 x xs ∙ counts-take left xs (omega arith))
