-- ===== src/Gold/View.antt =====
-- What a process can learn of the ring of LKM/mutex_sleep_ioctl_exercise/gold_device.c: the bytes it
-- holds, and not where in the buffer they stand.
use linux_kernel_modules.Base.{
  ℕ, ◌≤◌, ◌≡◌, ◌↔◌, refl, sym, ap, ◌∙◌, Bool, true, false, List, [], ◌∷◌, ◌==◌, length, take, drop,
  min, Option, none, some, arith, ok,
}
use mathlib.Core.HLevel.{Σ_prop_path, prop→set}
use mathlib.Core.Quot
use mathlib.Core.Quot.{Quot, Quot-set}
use native.Mathlib.Bridge.{le_prop}
use linux_kernel_modules.Text.Decimal.{take-long}
use linux_kernel_modules.Gold.Device.{GoldDev, buf_size, fresh, write_loop}
use linux_kernel_modules.Gold.Inv.{IsValid, contents, length-contents, write_loop-Writes}
use linux_kernel_modules.Gold.Queue
use linux_kernel_modules.Gold.Queue.{FileOp, read, Reply, Seen, seen}
use linux_kernel_modules.Gold.Refine.{run, gold_run_refines, calm, view-write_loop}

-- No calls tell the two rings apart, in either mode.
abbrev pub Indistinguishable : GoldDev → GoldDev → Type 0
Indistinguishable d e = (nb : Bool) (ops : List FileOp) → run nb d ops ≡ run nb e ops

-- The bytes of the first reply.
abbrev first_out : List Reply → List ℕ
first_out [] = []
first_out (r ∷ rs) = r.0

step_read :
    (c : ℕ) (q : List ℕ)
    → Queue.step true (c ∷ q) (read buf_size)
      ≡ some (
          seen (drop buf_size (c ∷ q)) (take buf_size (c ∷ q)) (ok (min buf_size (length (c ∷ q)))))
unfolding Queue.step
step_read c q = let some_bytes : (length (c ∷ q) == 0) ≡ false = ground arith in rw some_bytes refl

read_all :
    (q : List ℕ) → length q ≤ buf_size → first_out (Queue.run true q (read buf_size ∷ [])) ≡ q
unfolding Queue.run Queue.step
read_all [] h = refl
read_all (c ∷ q) h =
    ap
      (λ (o : Option Seen).
        first_out (elim o [ none ↦ [] | some s ↦ (s.out, s.ret) ∷ Queue.run true s.held [] ]))
      (step_read c q)
    ∙ take-long buf_size (c ∷ q) h

-- Two valid rings are told apart by some calls, each by itself and without signals and faults,
-- exactly when they hold different bytes: how often the ring has gone round, and what is left of
-- bytes that were read, cannot be seen.
pub alike_iff :
    (d e : GoldDev) → IsValid d → IsValid e → Indistinguishable d e ↔ (contents d ≡ contents e)
alike_iff d e v w = (
  λ alike. sym (whole d v) ∙ ap first_out (alike true (read buf_size ∷ [])) ∙ whole e w,
  λ same nb ops.
      gold_run_refines nb ops d v
      ∙ ap (λ q. Queue.run nb q ops) same
      ∙ sym (gold_run_refines nb ops e w),
)
  where
    whole : (f : GoldDev) → IsValid f → first_out (run true f (read buf_size ∷ [])) ≡ contents f
    whole f u =
        ap first_out (gold_run_refines true (read buf_size ∷ []) f u)
        ∙ read_all (contents f) (omega (arith, length-contents f, u.size_in))

-- A ring in any state that it can come to.
abbrev pub Ring : Type 0
Ring = (d : GoldDev) × IsValid d

-- The rings, of which those that no calls tell apart are the same.
abbrev pub View : Type 0
View = Quot {α = Ring} (λ x y. Indistinguishable x.0 y.0)

-- The queues of at most 256 bytes.
abbrev pub Bounded : Type 0
Bounded = (q : List ℕ) × (length q ≤ buf_size)

Bounded-set : IsSet Bounded
Bounded-set = hlevel (λ (q : List ℕ). prop→set (le_prop {n = length q} {m = buf_size}))

unfoldable pub held : Ring → Bounded
held (d, v) = (contents d, omega (arith, length-contents d, v.size_in))

held-Indistinguishable : (x y : Ring) → Indistinguishable x.0 y.0 → held x ≡ held y
unfolding held
held-Indistinguishable (d, v) (e, w) alike =
    Σ_prop_path (λ q. le_prop) ((alike_iff d e v w).0 alike)

-- The queue that a view shows.
unfoldable pub shown : View → Bounded
unfolding held held-Indistinguishable Bounded-set
shown = Quot.lift Bounded-set held held-Indistinguishable

fresh-IsValid : IsValid fresh
fresh-IsValid = record {
  storage = refl;
  tail_in = omega arith;
  size_in = omega arith;
  head_at = refl;
}

-- A fresh ring into which a queue is written.
unfoldable pub filled : Bounded → Ring
unfolding fresh-IsValid
filled (q, h) =
    ((write_loop calm q 0 fresh).dev, (write_loop-Writes calm q 0 fresh fresh-IsValid).valid)

contents-filled : (q : Bounded) → contents (filled q).0 ≡ q.0
unfolding filled fresh-IsValid
contents-filled (q, h) =
    ap Seen.held (view-write_loop q fresh fresh-IsValid) ∙ take-long buf_size q h

Replies-set : IsSet (List Reply)
Replies-set = hlevel

-- The replies to calls, of a view.
unfoldable pub replies : Bool → List FileOp → View → List Reply
unfolding Replies-set
replies nb ops = Quot.lift Replies-set (λ (x : Ring). run nb x.0 ops) (λ x y alike. alike nb ops)

same_view : (x y : Ring) → contents x.0 ≡ contents y.0 → ◌≡◌ {A = View} (Quot.mk x) (Quot.mk y)
same_view (d, v) (e, w) same = Quot.sound ((alike_iff d e v w).1 same)

filled-shown : (v : View) → Quot.mk (filled (shown v)) ≡ v
unfolding shown held
filled-shown =
    Quot.ind (λ v. Quot-set _ _) (λ x. same_view (filled (held x)) x (contents-filled (held x)))

replies-shown :
    (nb : Bool) (ops : List FileOp) (v : View) → replies nb ops v ≡ Queue.run nb (shown v).0 ops
unfolding shown replies held
replies-shown nb ops = Quot.ind (λ v. Replies-set _ _) (λ x. gold_run_refines nb ops x.0 x.1)

-- Up to what calls can tell apart, the rings are the queues of at most 256 bytes: each view shows a
-- queue, from which it comes back; each queue is shown by a view; and calls are functions of the
-- view, which do what they do to the queue.
pub views_are_queues :
    (v : View) (q : Bounded) (nb : Bool) (ops : List FileOp)
    → (Quot.mk (filled (shown v)) ≡ v)
      × (shown (Quot.mk (filled q)) ≡ q)
      × (replies nb ops v ≡ Queue.run nb (shown v).0 ops)
unfolding shown held
views_are_queues v q nb ops =
    (filled-shown v, Σ_prop_path (λ l. le_prop) (contents-filled q), replies-shown nb ops v)
