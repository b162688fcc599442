-- ===== src/Keyboard/Ring/Readers.antt =====
-- What `kbdmon_read` of LKM/Keyboard_monitor/kbdmon_chrdev.c does when the ring is empty by the
-- time that it takes the lock.
use linux_kernel_modules.Base.{
  ℕ, zero, suc, ◌+◌, ◌%◌, ◌<◌, ◌≢◌, sym, ap, ap₂, ◌∙◌, List, [], ◌∷◌, ◌++◌, ◌-◌, ◌≤◌, ◌≡◌, refl,
  true, false, some, ok, arith, get_or,
}
use linux_kernel_modules.Window.{items, items-cons, items-add}
use linux_kernel_modules.Keyboard.Ring.Queue.{has_event_iff}
use linux_kernel_modules.Keyboard.Ring.{
  KeyEvent, Ring, buf_size, sizeof_ev, take_event, has_event, kbdmon_read, Reading, no_event,
}
use linux_kernel_modules.Keyboard.Ring.Inv.{IsValid, count, contents, take_event-IsValid}

-- Of two readers that wake on one event, both pass the test `head != tail`; the second then takes a
-- slot that holds no new event, and leaves a ring that counts 127 events.
pub two_readers_one_event :
    (r : Ring)
    → IsValid r
    → count r ≡ 1
    → (has_event r ≡ true)
      × (count (take_event r).1 ≡ 0)
      × (count (take_event (take_event r).1).1 ≡ buf_size - 1)
unfolding take_event has_event
two_readers_one_event r v h = (ground arith, omega arith, omega arith)

-- A signal ends the wait of a reader on an empty ring; the reader then returns 4 with the event of
-- a slot that holds none, and leaves a ring that counts 127 events.
pub signal_on_empty_ring :
    (len : ℕ) (r : Ring)
    → sizeof_ev ≤ len
    → IsValid r
    → count r ≡ 0
    → (o : Reading) × (kbdmon_read len true false r ≡ some o)
      × (o.out ≡ some (get_or r.ring r.tail no_event))
      × (o.ret ≡ ok sizeof_ev)
      × (count o.ring ≡ buf_size - 1)
unfolding kbdmon_read
signal_on_empty_ring len r fits v h = (
  record { ring = (take_event r).1; out = some (take_event r).0; ret = ok sizeof_ev },
  ground arith,
  refl,
  refl,
  omega arith,
)

-- The readers behind their wait, `n` of them, take the lock one after the other: what they get, and
-- what they leave.
unfoldable pub served : (n : ℕ) → Ring → List KeyEvent × Ring
unfolding take_event
served zero r = ([], r)
served (suc n) r = let rest = served n (take_event r).1 in ((take_event r).0 ∷ rest.0, rest.1)

served_lem :
    (n : ℕ) (r : Ring)
    → IsValid r
    → served n r
      ≡ (items buf_size no_event r.ring r.tail n, record r { tail = (r.tail + n) % buf_size })
unfolding served
served_lem zero r v =
    let same : (r.tail + 0) % buf_size ≡ r.tail = omega (arith, v.tail_in) in rw same refl
served_lem (suc n) r v =
    let on : ((r.tail + 1) % buf_size + n) % buf_size ≡ (r.tail + suc n) % buf_size = omega arith in
    rw (served_lem n (take_event r).1 (take_event-IsValid r v)) (
      ap₂ (λ xs t. (xs, record r { tail = t }))
        (sym (items-cons buf_size no_event r.ring r.tail n v.tail_in)) on)

-- Where events wait, any number of readers pass the wait. If there are `extra` more of them than
-- events, fewer than 128: the first get the events, in order, and the others what stands in the
-- slots from `head` on. The ring then counts 128 events less `extra`, though it holds no new one,
-- and lets more readers through.
pub overrun_lem :
    (extra : ℕ) (r : Ring)
    → IsValid r
    → count r ≢ 0
    → 0 < extra
    → extra < buf_size
    → let s = served (count r + extra) r in
      (has_event r ≡ true)
      × (s.0 ≡ contents r ++ items buf_size no_event r.ring r.head extra)
      × (count s.1 ≡ buf_size - extra)
      × (has_event s.1 ≡ true)
overrun_lem extra r v some_wait pos few =
    let at_head : (r.tail + count r) % buf_size ≡ r.head = omega arith in
    let e = served_lem (count r + extra) r v in
    let left : count (served (count r + extra) r).1 ≡ buf_size - extra =
      ap (λ (s : List KeyEvent × Ring). count s.1) e ∙ omega arith in
    let still : IsValid (served (count r + extra) r).1 =
      rw e (record { storage = v.storage; head_in = v.head_in; tail_in = omega arith }) in
    (
      (has_event_iff r v).1 some_wait,
      ap (λ (s : List KeyEvent × Ring). s.0) e
          ∙ items-add buf_size no_event r.ring r.tail (count r) extra
          ∙ ap (λ h. contents r ++ items buf_size no_event r.ring h extra) at_head,
      left,
      (has_event_iff _ still).1 (omega (arith, left)),
    )
