-- ===== src/Keyboard/Ring/OneReader.antt =====
-- One process that reads from the device of LKM/Keyboard_monitor/kbdmon_chrdev.c while keys are
-- typed: between the wait of `kbdmon_read` and its lock, more events may come.
use linux_kernel_modules.Base.{
  ◌-◌, ◌≡◌, ◌≢◌, refl, sym, ap, ◌∙◌, Bool, true, false, List, [], ◌∷◌, ◌++◌, ◌==◌, if◌then◌else◌,
  arith, Bool-cases, ◌⊎◌, inl, inr, append_assoc, get_or,
}
use mathlib.Core.Bool.{false≢true}
use linux_kernel_modules.Delivery.{InOrder, nothing, lost, got, InOrder-append}
use linux_kernel_modules.Keyboard.Ring.{
  KeyEvent, Ring, fresh, buf_size, no_event, push_event, take_event, has_event,
}
use linux_kernel_modules.Keyboard.Ring.Inv.{
  IsValid, contents, count, push_event-IsValid, take_event-IsValid, contents-push_event,
  contents-push_event_full, contents-take_event,
}
use linux_kernel_modules.Keyboard.Ring.Queue.{has_event_iff}

-- The reader has room for an event. `waited`: it is behind its wait, and before the lock. `typed`:
-- the events pushed; `received`: those copied to the reader, both oldest first.
pub record System : Type 0 where
  pub ring : Ring
  pub waited : Bool
  pub typed : List KeyEvent
  pub received : List KeyEvent

pub data Step (s : System) : System → Type 0 where
  -- `push_event` of a key event.
  event :
      (ev : KeyEvent)
      → Step s (record s { ring = push_event ev s.ring; typed = s.typed ++ (ev ∷ []) })
  -- The reader finds `head != tail`; no signal comes.
  wait : s.waited ≡ false → has_event s.ring ≡ true → Step s (record s { waited = true })
  -- It takes an event under the lock, and copies it to the user, which may fail.
  take :
      (fault : Bool)
      → s.waited ≡ true
      → Step s (record s {
        ring = (take_event s.ring).1;
        waited = false;
        received = if fault then s.received else s.received ++ ((take_event s.ring).0 ∷ []);
      })

abbrev pub start : System
start = record { ring = fresh; waited = false; typed = []; received = [] }

pub data Reach : System → Type 0 where
  here : Reach start
  next : {s t : System} → Reach s → Step s t → Reach t

-- `gone`: the events that are no longer in the ring.
record IsSound (s : System) : Type 0 where
  valid : IsValid s.ring
  some_left : s.waited ≡ true → count s.ring ≢ 0
  gone : List KeyEvent
  ledger : s.typed ≡ gone ++ contents s.ring
  delivered : InOrder ◌≡◌ s.received gone

push_event-not_empty : (ev : KeyEvent) (r : Ring) → IsValid r → count (push_event ev r) ≢ 0
unfolding push_event
push_event-not_empty ev r v = ground arith

-- One event behind the contents, of which the first may have to go.
event-IsSound :
    (ev : KeyEvent) (s : System)
    → IsSound s
    → IsSound (record s { ring = push_event ev s.ring; typed = s.typed ++ (ev ∷ []) })
event-IsSound ev s h = elim (Bool-cases (count s.ring == buf_size - 1)) [
  | inr room ↦ record {
    valid = push_event-IsValid ev s.ring h.valid;
    some_left = λ w. push_event-not_empty ev s.ring h.valid;
    gone = h.gone;
    ledger =
        ap (λ l. l ++ (ev ∷ [])) h.ledger
        ∙ append_assoc h.gone (contents s.ring) (ev ∷ [])
        ∙ ap (λ l. h.gone ++ l) (sym (contents-push_event ev s.ring h.valid (ground arith)));
    delivered = h.delivered;
  }
  | inl full ↦ record {
    valid = push_event-IsValid ev s.ring h.valid;
    some_left = λ w. push_event-not_empty ev s.ring h.valid;
    gone = h.gone ++ (get_or s.ring.ring s.ring.tail no_event ∷ []);
    ledger =
        ap (λ l. l ++ (ev ∷ [])) h.ledger
        ∙ append_assoc h.gone (contents s.ring) (ev ∷ [])
        ∙ ap (λ l. h.gone ++ l) (sym (contents-push_event_full ev s.ring h.valid (ground arith)))
        ∙ sym (
            append_assoc h.gone (get_or s.ring.ring s.ring.tail no_event ∷ [])
              (contents (push_event ev s.ring)));
    delivered = lost (get_or s.ring.ring s.ring.tail no_event) h.delivered;
  }
]

take-IsSound :
    (fault : Bool) (s : System)
    → s.waited ≡ true
    → IsSound s
    → IsSound (record s {
      ring = (take_event s.ring).1;
      waited = false;
      received = if fault then s.received else s.received ++ ((take_event s.ring).0 ∷ []);
    })
take-IsSound fault s w h =
    let ev : KeyEvent = (take_event s.ring).0 in
    record {
      valid = take_event-IsValid s.ring h.valid;
      some_left = λ off. absurd (false≢true off);
      gone = h.gone ++ (ev ∷ []);
      ledger =
          h.ledger
          ∙ ap (λ l. h.gone ++ l) (contents-take_event s.ring h.valid (h.some_left w))
          ∙ sym (append_assoc h.gone (ev ∷ []) (contents (take_event s.ring).1));
      delivered =
          elim fault
            as (λ b.
              InOrder ◌≡◌ (if b then s.received else s.received ++ (ev ∷ []))
                (h.gone ++ (ev ∷ []))) [
                  | true ↦ lost ev h.delivered
                  | false ↦ got ev ev refl h.delivered
                ];
    }

Step-IsSound : {s t : System} → Step s t → IsSound s → IsSound t
Step-IsSound {s} (event ev) h = event-IsSound ev s h
Step-IsSound {s} (wait before e) h = record {
  valid = h.valid;
  some_left = λ w. (has_event_iff s.ring h.valid).0 e;
  gone = h.gone;
  ledger = h.ledger;
  delivered = h.delivered;
}
Step-IsSound {s} (take fault w) h = take-IsSound fault s w h

Reach-IsSound : {s : System} → Reach s → IsSound s
Reach-IsSound here = record {
  valid = record { storage = refl; head_in = omega arith; tail_in = omega arith };
  some_left = λ off. absurd (false≢true off);
  gone = [];
  ledger = refl;
  delivered = nothing;
}
Reach-IsSound (next r st) = Step-IsSound st (Reach-IsSound r)

-- However the key events fall between the wait and the lock of the one process that reads, to which
-- no signal comes: what it receives are events that were typed, each once and in order. Behind its
-- wait the ring is never empty.
pub one_reader-InOrder :
    {s : System}
    → Reach s
    → InOrder ◌≡◌ s.received s.typed × ((s.waited ≡ false) ⊎ (has_event s.ring ≡ true))
one_reader-InOrder {s} r =
    let h = Reach-IsSound r in
    (
      rw h.ledger (InOrder-append s.received h.gone (contents s.ring) h.delivered),
      elim (Bool-cases s.waited) [
        | inr off ↦ inl off
        | inl on ↦ inr ((has_event_iff s.ring h.valid).1 (h.some_left on))
      ],
    )
