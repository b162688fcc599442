-- ===== src/Keyboard/Ring/Queue.antt =====
-- What the event ring promises: a queue of the newest 127 events.
use linux_kernel_modules.Base.{
  true, false, Option, none, some, List, [], ◌∷◌, ◌++◌, ◌==◌, if◌then◌else◌, length, ◌≡◌, ◌≢◌, ◌↔◌,
  Ret, ok, refl, sym, ap, ◌∙◌, ◌-◌, Bool-cases, inl, inr, arith,
}
use linux_kernel_modules.Keyboard.Ring.{
  KeyEvent, Ring, buf_size, sizeof_ev, push_event, take_event, has_event, kbdmon_read,
}
use linux_kernel_modules.Keyboard.Ring.Inv.{
  IsValid, contents, count, length-contents, push_event-IsValid, take_event-IsValid,
  contents-push_event, contents-push_event_full, contents-take_event,
}

abbrev pub but_first : List KeyEvent → List KeyEvent
but_first [] = []
but_first (x ∷ xs) = xs

abbrev first_or : KeyEvent → List KeyEvent → KeyEvent
first_or d [] = d
first_or d (x ∷ xs) = x

-- The new event last; beyond 127 events the oldest one is dropped.
unfoldable pub push : KeyEvent → List KeyEvent → List KeyEvent
push ev q = if length q == buf_size - 1 then but_first (q ++ (ev ∷ [])) else q ++ (ev ∷ [])

-- What happens to the ring: a key event, or a read with room for an event.
pub data Op : Type 0 where
  key : KeyEvent → Op
  read : Op

-- What the reads return, in order; a read of an empty queue sleeps, and is passed over.
unfoldable pub run : List KeyEvent → List Op → List (Option KeyEvent × Ret)
run q [] = []
run q (key ev ∷ ops) = run (push ev q) ops
run [] (read ∷ ops) = run [] ops
run (x ∷ q) (read ∷ ops) = (some x, ok sizeof_ev) ∷ run q ops

-- The same of the ring: one thread at a time, no signal, no fault.
unfoldable pub run_ring : Ring → List Op → List (Option KeyEvent × Ret)
run_ring r [] = []
run_ring r (key ev ∷ ops) = run_ring (push_event ev r) ops
run_ring r (read ∷ ops) = elim (kbdmon_read sizeof_ev false false r) [
  | none ↦ run_ring r ops
  | some o ↦ (o.out, o.ret) ∷ run_ring o.ring ops
]

pub push_refines :
    (ev : KeyEvent) (r : Ring) → IsValid r → contents (push_event ev r) ≡ push ev (contents r)
unfolding push
push_refines ev r v = elim (Bool-cases (count r == buf_size - 1)) [
  | inl e ↦
      rw (length-contents r, e) (ap but_first (contents-push_event_full ev r v (ground arith)))
  | inr e ↦ rw (length-contents r, e) (contents-push_event ev r v (ground arith))
]

-- The test of the wait: some event is there.
pub has_event_iff : (r : Ring) → IsValid r → (has_event r ≡ true) ↔ (count r ≢ 0)
unfolding has_event
has_event_iff r v = ground arith

pub read-contents :
    (r : Ring) (x : KeyEvent) (q : List KeyEvent)
    → IsValid r
    → contents r ≡ x ∷ q
    → (kbdmon_read sizeof_ev false false r
        ≡ some (record { ring = (take_event r).1; out = some x; ret = ok sizeof_ev }))
      × (contents (take_event r).1 ≡ q)
unfolding kbdmon_read
read-contents r x q v e = rw ((has_event_iff r v).1 some_event) (
  ap (λ y. some (record { ring = (take_event r).1; out = some y; ret = ok sizeof_ev }))
      (ap (λ l. first_or x l) both),
  ap but_first both,
)
  where
    some_event : count r ≢ 0
    some_event = omega (arith, length-contents r, ap length e)

    both : (take_event r).0 ∷ contents (take_event r).1 ≡ x ∷ q
    both = sym (contents-take_event r v some_event) ∙ e

pub read-empty :
    (r : Ring) → IsValid r → contents r ≡ [] → kbdmon_read sizeof_ev false false r ≡ none
unfolding kbdmon_read
read-empty r v e = elim (Bool-cases (has_event r)) [
  | inl t ↦ absurd ((has_event_iff r v).0 t (omega (arith, length-contents r, ap length e)))
  | inr f ↦ rw f
]

-- One read, given that the runs agree from then on.
run_refines_read :
    (ops : List Op) (r : Ring) (q : List KeyEvent)
    → ((s : Ring) → IsValid s → run_ring s ops ≡ run (contents s) ops)
    → IsValid r
    → contents r ≡ q
    → run_ring r (read ∷ ops) ≡ run q (read ∷ ops)
unfolding run run_ring
run_refines_read ops r [] rest v e =
    rw (read-empty r v e, run_ring) (rest r v ∙ ap (λ q. run q ops) e)
run_refines_read ops r (x ∷ q) rest v e =
    let taken = read-contents r x q v e in
    rw (taken.0, run_ring)
      (ap (λ l. (some x, ok sizeof_ev) ∷ l)
        (rest (take_event r).1 (take_event-IsValid r v) ∙ ap (λ l. run l ops) taken.1))

-- A valid ring returns to its readers, over any run of key events and reads, each by itself and
-- without signals and faults, what the queue of the
-- newest 127 events returns: in order, and without those that were overwritten.
pub ring_run_refines :
    (ops : List Op) (r : Ring) → IsValid r → run_ring r ops ≡ run (contents r) ops
unfolding run run_ring
ring_run_refines [] r v = refl
ring_run_refines (key ev ∷ ops) r v =
    ring_run_refines ops (push_event ev r) (push_event-IsValid ev r v)
    ∙ ap (λ q. run q ops) (push_refines ev r v)
ring_run_refines (read ∷ ops) r v =
    run_refines_read ops r (contents r) (λ s w. ring_run_refines ops s w) v refl
