-- ===== src/Keyboard/Ring.antt =====
-- The event ring of LKM/Keyboard_monitor/kbdmon_chrdev.c: `push_event` runs in the input handler,
-- `kbdmon_read` in a reader. 128 slots, of which one stays free, so that `head == tail` is empty.
pub mod Inv
pub mod Queue
pub mod Readers
pub mod Demo
pub mod OneReader
use linux_kernel_modules.Base.{
  ℕ, ◌+◌, ◌%◌, ◌^◌, Bool, true, false, not, Option, none, some, List, [], ◌∷◌, ◌==◌, if◌then◌else◌,
  ltb, get_or, set, replicate, Ret, ok, fail, einval, efault, eintr,
}

abbrev pub buf_size : ℕ
buf_size = 128

-- `struct key_event`: `u16 code; u8 value;`, 4 bytes with its padding.
pub record KeyEvent : Type 0 where
  pub code : ℕ
  pub value : ℕ

abbrev pub sizeof_ev : ℕ
sizeof_ev = 4

abbrev pub no_event : KeyEvent
no_event = record { code = 0; value = 0 }

-- The static `ring`, `head` and `tail`.
pub record Ring : Type 0 where
  pub ring : List KeyEvent
  pub head : ℕ
  pub tail : ℕ

abbrev pub fresh : Ring
fresh = record { ring = replicate buf_size no_event; head = 0; tail = 0 }

abbrev pub next_slot : ℕ → ℕ
next_slot i = (i + 1) % buf_size

-- What `push_event` does under `ring_lock`.
unfoldable pub push_event : KeyEvent → Ring → Ring
push_event ev r = record {
  ring = set r.ring r.head ev;
  head = next_slot r.head;
  tail = if next_slot r.head == r.tail then next_slot r.tail else r.tail;
}

-- `kbdmon_event`: the arguments are cut to `u16` and `u8` on the call. The `int value` is 0, 1 or 2.
unfoldable pub kbdmon_event : (ev_key type code value : ℕ) → Ring → Ring
unfolding push_event
kbdmon_event ev_key type code value r =
    if not (type == ev_key)
    then r
    else push_event (record { code = code % 2 ^ 16; value = value % 2 ^ 8 }) r

-- What `kbdmon_read` does under `ring_lock`. It does not look at `head`.
unfoldable pub take_event : Ring → KeyEvent × Ring
take_event r = (get_or r.ring r.tail no_event, record r { tail = next_slot r.tail })

-- `head != tail`, the condition of the wait.
unfoldable pub has_event : Ring → Bool
has_event r = not (r.head == r.tail)

-- What a read hands out: the event copied to the user, if any, and the return value.
pub record Reading : Type 0 where
  pub ring : Ring
  pub out : Option KeyEvent
  pub ret : Ret

-- After the wait: the part under the lock, and the copy to the user.
unfoldable pub finish_read : (fault : Bool) → Ring → Reading
unfolding take_event
finish_read fault r =
    let (ev, r') = take_event r in
    if fault
    then record { ring = r'; out = none; ret = fail efault }
    else record { ring = r'; out = some ev; ret = ok sizeof_ev }

-- A read during which no other thread runs; `none` means that it sleeps. The wait's return value is
-- not looked at: on a signal the read goes on.
unfoldable pub kbdmon_read : (len : ℕ) (signal fault : Bool) → Ring → Option Reading
unfolding has_event finish_read
kbdmon_read len signal fault r =
    if ltb len sizeof_ev
    then some (record { ring = r; out = none; ret = fail einval })
    else if has_event r
    then some (finish_read fault r)
    else if signal
    then some (finish_read fault r)
    else none
