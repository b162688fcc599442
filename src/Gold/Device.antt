-- ===== src/Gold/Device.antt =====
-- State and file operations of LKM/mutex_sleep_ioctl_exercise/gold_device.c. A handler that takes
-- the mutex is cut in two: what runs before the lock is taken (`..._enter`) and what runs under it
-- (`..._locked`), since other threads may run in between. The signals, the faults of user memory
-- and the flag O_NONBLOCK come from outside and are arguments.
use linux_kernel_modules.Base.{
  ℕ, zero, suc, ◌+◌, ◌-◌, ◌%◌, Bool, true, false, ◌&&◌, not, Option, none, some, List, [], ◌∷◌,
  ◌==◌, if◌then◌else◌, get_or, set, Ret, ok, fail, eagain, eintr, efault, enotty, enomem, replicate,
}

abbrev pub buf_size : ℕ
buf_size = 256

-- `struct gold_dev` without its mutex, queues and cdev. The indices are `size_t`; they stay below
-- `buf_size`, so no sum of theirs wraps.
pub record GoldDev : Type 0 where
  pub buffer : List ℕ
  pub head : ℕ
  pub tail : ℕ
  pub size : ℕ

unfoldable pub buffer_empty : GoldDev → Bool
buffer_empty d = d.size == 0

unfoldable pub buffer_full : GoldDev → Bool
buffer_full d = d.size == buf_size

-- `struct file_ctx`.
pub record FileCtx : Type 0 where
  pub nonblocking : Bool

-- `gold_open`: `allocated` says whether kmalloc gave memory.
unfoldable pub gold_open : (allocated o_nonblock : Bool) → Option FileCtx × Ret
gold_open allocated o_nonblock =
    if not allocated
    then (none, fail enomem)
    else (some (record { nonblocking = if o_nonblock then true else false }), ok 0)

-- `gold_release`: the context is gone.
unfoldable pub gold_release : Option FileCtx → Option FileCtx × Ret
gold_release ctx = (none, ok 0)

-- Which wait queue a call wakes on its way out.
pub data Wake : Type 0 where
  nobody readers writers : Wake

pub record Outcome : Type 0 where
  pub dev : GoldDev
  pub out : List ℕ  -- bytes handed to user memory
  pub ret : Ret
  pub wake : Wake

-- What happens before the lock: go on to take it, sleep, or return.
pub data Enter : Type 0 where
  go sleep : Enter
  leave : Ret → Enter

-- `wait_event_interruptible`: returns at once when its condition holds; else sleeps until it is
-- woken with the condition true, or a signal arrives.
unfoldable pub wait_event_interruptible : (condition signal : Bool) → Enter
wait_event_interruptible condition signal =
    if condition then go else if signal then leave (fail eintr) else sleep

unfoldable pub read_enter : (nonblocking signal : Bool) → GoldDev → Enter
unfolding wait_event_interruptible buffer_empty
read_enter nonblocking signal d =
    if nonblocking then go else wait_event_interruptible (not (buffer_empty d)) signal

-- `d->tail = (d->tail + 1) % BUF_SIZE; d->size--;`
abbrev pub advance_tail : GoldDev → GoldDev
advance_tail d = record d { tail = (d.tail + 1) % buf_size; size = d.size - 1 }

abbrev pub cons_out : ℕ → Outcome → Outcome
cons_out c o = record o { out = c ∷ o.out }

-- The loop of `gold_read` from `copied` on, `left` being `count - copied`, to its return.
-- `fault i` says that `put_user` fails at `buf + i`.
unfoldable pub read_loop : (ℕ → Bool) → ℕ → ℕ → GoldDev → Outcome
unfolding buffer_empty
read_loop fault zero copied d = record { dev = d; out = []; ret = ok copied; wake = writers }
read_loop fault (suc left) copied d =
    let rest = read_loop fault left (copied + 1) (advance_tail d) in
    if buffer_empty d
    then record { dev = d; out = []; ret = ok copied; wake = writers }
    else if fault copied
    then record { dev = d; out = []; ret = fail efault; wake = nobody }
    else cons_out (get_or d.buffer d.tail 0) rest

unfoldable pub read_locked : (nonblocking : Bool) → (ℕ → Bool) → ℕ → GoldDev → Outcome
unfolding read_loop buffer_empty
read_locked nonblocking fault count d =
    if nonblocking && buffer_empty d
    then record { dev = d; out = []; ret = fail eagain; wake = nobody }
    else read_loop fault count 0 d

unfoldable pub write_enter : (nonblocking signal : Bool) → GoldDev → Enter
unfolding wait_event_interruptible buffer_full
write_enter nonblocking signal d =
    if nonblocking then go else wait_event_interruptible (not (buffer_full d)) signal

-- `d->buffer[d->head] = c; d->head = (d->head + 1) % BUF_SIZE; d->size++;`
abbrev pub store_head : ℕ → GoldDev → GoldDev
store_head c d = record d {
  buffer = set d.buffer d.head c;
  head = (d.head + 1) % buf_size;
  size = d.size + 1;
}

-- The loop of `gold_write`; the list is the user's bytes from `copied` to `count`.
unfoldable pub write_loop : (ℕ → Bool) → List ℕ → ℕ → GoldDev → Outcome
unfolding buffer_full
write_loop fault [] copied d = record { dev = d; out = []; ret = ok copied; wake = readers }
write_loop fault (c ∷ src) copied d =
    let rest = write_loop fault src (copied + 1) (store_head c d) in
    if buffer_full d
    then record { dev = d; out = []; ret = ok copied; wake = readers }
    else if fault copied
    then record { dev = d; out = []; ret = fail efault; wake = nobody }
    else rest

unfoldable pub write_locked : (nonblocking : Bool) → (ℕ → Bool) → List ℕ → GoldDev → Outcome
unfolding write_loop buffer_full
write_locked nonblocking fault src d =
    if nonblocking && buffer_full d
    then record { dev = d; out = []; ret = fail eagain; wake = nobody }
    else write_loop fault src 0 d

-- The signals that reach a call: during the wait, and during `mutex_lock_interruptible`.
pub record Signals : Type 0 where
  pub wait : Bool
  pub lock : Bool

abbrev pub give_up : Ret → GoldDev → Outcome
give_up r d = record { dev = d; out = []; ret = r; wake = nobody }

-- A whole call during which no other thread runs; `none` means that it sleeps.
abbrev pub whole_call : Enter → Signals → (GoldDev → Outcome) → GoldDev → Option Outcome
whole_call sleep s locked d = none
whole_call (leave r) s locked d = some (give_up r d)
whole_call go s locked d = some (if s.lock then give_up (fail eintr) d else locked d)

unfoldable pub gold_read : FileCtx → Signals → (ℕ → Bool) → ℕ → GoldDev → Option Outcome
unfolding read_enter read_locked
gold_read ctx s fault count d =
    whole_call (read_enter ctx.nonblocking s.wait d) s (read_locked ctx.nonblocking fault count) d

unfoldable pub gold_write : FileCtx → Signals → (ℕ → Bool) → List ℕ → GoldDev → Option Outcome
unfolding write_enter write_locked
gold_write ctx s fault src d =
    whole_call (write_enter ctx.nonblocking s.wait d) s (write_locked ctx.nonblocking fault src) d

-- `gold_poll`: whether POLLIN | POLLRDNORM and POLLOUT | POLLWRNORM are set.
pub record PollMask : Type 0 where
  pub readable : Bool
  pub writable : Bool

unfoldable pub gold_poll : GoldDev → PollMask
unfolding buffer_empty buffer_full
gold_poll d = record { readable = not (buffer_empty d); writable = not (buffer_full d) }

-- The commands of `gold_ioctl`; `other` is any number but the two.
pub data Cmd : Type 0 where
  reset get_bufsize other : Cmd

abbrev pub cleared : GoldDev → GoldDev
cleared d = record d { head = 0; tail = 0; size = 0 }

-- `signal` during the lock of IOCTL_RESET, `fault` in the copy of IOCTL_GET_BUFSIZE. What goes to
-- the user's `int` is in `out`.
unfoldable pub gold_ioctl : (signal fault : Bool) → Cmd → GoldDev → Outcome
gold_ioctl signal fault reset d =
    if signal
    then give_up (fail eintr) d
    else record { dev = cleared d; out = []; ret = ok 0; wake = writers }
gold_ioctl signal fault get_bufsize d =
    if fault
    then give_up (fail efault) d
    else record { dev = d; out = buf_size ∷ []; ret = ok 0; wake = nobody }
gold_ioctl signal fault other d = give_up (fail enotty) d

-- What `gold_init` leaves: static storage is zeroed, and `head = tail = size = 0`.
abbrev pub fresh : GoldDev
fresh = record { buffer = replicate buf_size 0; head = 0; tail = 0; size = 0 }
