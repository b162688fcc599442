-- ===== src/Keyboard/Ring/Inv.antt =====
-- The invariant of the event ring, and its contents as a list.
use linux_kernel_modules.Base.{
  ℕ, suc, ◌+◌, ◌-◌, ◌%◌, ◌<◌, ◌≡◌, ◌≢◌, sym, ap, ap₂, ◌∙◌, true, false, List, [], ◌∷◌, ◌++◌, arith,
  length, get_or, set, length-set, ◌==◌,
}
use linux_kernel_modules.Window.{items, items-push, items-cons, length-items, get_or-set_ne}
use linux_kernel_modules.Keyboard.Ring.{
  KeyEvent, Ring, buf_size, no_event, push_event, take_event, next_slot,
}

pub record IsValid (r : Ring) : Type 0 where
  pub storage : length r.ring ≡ buf_size
  pub head_in : r.head < buf_size
  pub tail_in : r.tail < buf_size

-- How many events wait.
abbrev pub count : Ring → ℕ
count r = (r.head + buf_size - r.tail) % buf_size

-- The events that wait, oldest first.
abbrev pub contents : Ring → List KeyEvent
contents r = items buf_size no_event r.ring r.tail (count r)

pub length-contents : (r : Ring) → length (contents r) ≡ count r
length-contents r = length-items buf_size no_event r.ring r.tail (count r)

pub push_event-IsValid : (ev : KeyEvent) (r : Ring) → IsValid r → IsValid (push_event ev r)
unfolding push_event
push_event-IsValid ev r v = ground (arith, length-set r.ring r.head ev)

pub take_event-IsValid : (r : Ring) → IsValid r → IsValid (take_event r).1
unfolding take_event
take_event-IsValid r v = omega arith

-- Taking from a ring with events takes the oldest one.
pub contents-take_event :
    (r : Ring) → IsValid r → count r ≢ 0 → contents r ≡ (take_event r).0 ∷ contents (take_event r).1
unfolding take_event
contents-take_event r v h =
    let e : count r ≡ suc (count (record r { tail = next_slot r.tail })) = omega arith in
    ap (items buf_size no_event r.ring r.tail) e
    ∙ items-cons buf_size no_event r.ring r.tail (count (record r { tail = next_slot r.tail }))
        v.tail_in

abbrev stored : KeyEvent → Ring → List KeyEvent
stored ev r = set r.ring r.head ev

-- The events with the new one behind them, before the oldest one may be dropped.
grown :
    (ev : KeyEvent) (r : Ring)
    → IsValid r
    → items buf_size no_event (stored ev r) r.tail (suc (count r)) ≡ contents r ++ (ev ∷ [])
grown ev r v =
    ap (λ h. items buf_size no_event (set r.ring h ev) r.tail (suc (count r))) behind
    ∙ items-push buf_size no_event r.ring r.tail (count r) ev v.tail_in (omega arith) (omega arith)
  where
    behind : r.head ≡ (r.tail + count r) % buf_size
    behind = omega arith

-- A ring with room appends the event.
pub contents-push_event :
    (ev : KeyEvent) (r : Ring)
    → IsValid r
    → count r ≢ buf_size - 1
    → contents (push_event ev r) ≡ contents r ++ (ev ∷ [])
unfolding push_event
contents-push_event ev r v h =
    rw stays (ap (items buf_size no_event (stored ev r) r.tail) one_more ∙ grown ev r v)
  where
    stays : (next_slot r.head == r.tail) ≡ false
    stays = ground arith

    one_more : (next_slot r.head + buf_size - r.tail) % buf_size ≡ suc (count r)
    one_more = omega arith

-- A full ring appends the event and drops its oldest one.
pub contents-push_event_full :
    (ev : KeyEvent) (r : Ring)
    → IsValid r
    → count r ≡ buf_size - 1
    → get_or r.ring r.tail no_event ∷ contents (push_event ev r) ≡ contents r ++ (ev ∷ [])
unfolding push_event
contents-push_event_full ev r v h = rw moves (
    ap₂ (λ x n. x ∷ items buf_size no_event (stored ev r) (next_slot r.tail) n) oldest same
    ∙ sym (items-cons buf_size no_event (stored ev r) r.tail (count r) v.tail_in)
    ∙ grown ev r v)
  where
    moves : (next_slot r.head == r.tail) ≡ true
    moves = ground arith

    oldest : get_or r.ring r.tail no_event ≡ get_or (stored ev r) r.tail no_event
    oldest = sym (get_or-set_ne r.ring r.head r.tail ev no_event (omega arith))

    same : (next_slot r.head + buf_size - next_slot r.tail) % buf_size ≡ count r
    same = omega arith
