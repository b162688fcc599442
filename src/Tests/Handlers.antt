-- ===== src/Tests/Handlers.antt =====
-- The theorems on handlers and their mutex, on readers of the event ring, and on parameters that
-- change, at concrete inputs.
use linux_kernel_modules.Base.{
  update, Ret, ◌++◌, ℕ, ◌+◌, ◌*◌, ◌≡◌, ◌↔◌, ◌<◌, refl, true, false, Option, none, some, List, [],
  ◌∷◌, pos, replicate, arith, if◌then◌else◌, ltb, leb, ◌==◌, min,
}
use linux_kernel_modules.Pages.{fragment_memory, demo_exit, order_below}
use linux_kernel_modules.Pages.Unload.{freed_from, unload_lem}
use linux_kernel_modules.CharDev.Leaky
use linux_kernel_modules.CharDev.Leaky.Resized.{
  Op, write, set_size, run, read_anywhere, write_anywhere,
}
use linux_kernel_modules.CharDev.Leaky.Resized.Outside.{Short, outside_iff}
use linux_kernel_modules.Mutex.{free}
use linux_kernel_modules.Gold
use linux_kernel_modules.Gold.Locking.Whole.{gold_handlers_locked}
use linux_kernel_modules.Gold.Inv.{IsValid, contents}
use linux_kernel_modules.Gold.Threads.{Request, writing, enter}
use linux_kernel_modules.Gold.Bytes
use linux_kernel_modules.Gold.Bytes.Section.{Inside}
use linux_kernel_modules.Gold.Bytes.Atomic.{AsPromised, sections_are_atomic}
use linux_kernel_modules.Fixed
use linux_kernel_modules.Fixed.Locking.Whole.{fixed_handlers_locked}
use linux_kernel_modules.Keyboard.Ring.{Ring, no_event, has_event}
use linux_kernel_modules.Keyboard.Ring.Inv.{count}
use linux_kernel_modules.Keyboard.Ring.Readers.{served, overrun_lem}

abbrev address : ℕ → ℕ
address i = 65536 * i + 4096

-- Three blocks, and no more.
abbrev three : ℕ → Option ℕ
three i = if ltb i 3 then some (address i) else none

three_given : (j : ℕ) → j < 3 → three j ≡ some (address j)
three_given j h = ground arith

-- Asked for ten blocks, with two to free when it is unloaded.
unload_lem_example :
    let d = fragment_memory true three 10 4 in
    (d.freed ≡ freed_from address (order_below 4) 3 0)
    × (demo_exit 2 4 d.blocks
        ≡ (if leb 2 (min 10 (3 + 1)) then some (freed_from address 4 (min 2 3) 0) else none))
unload_lem_example = unload_lem address three 10 4 3 2 4 (omega arith) three_given (λ h. refl)

-- The load is refused memory, a write is then given 4 bytes, and the parameter is 9 behind that.
abbrev grown : List Op
grown = write (some (λ i. 0)) 2 (b'a' ∷ b'b' ∷ []) ∷ set_size 9 ∷ []

abbrev grown_device : Leaky.Device
grown_device = record { buffer = some (b'a' ∷ b'b' ∷ 0 ∷ 0 ∷ []); buffer_size = 9 }

outside_iff_example :
    ((read_anywhere false 1 0 grown_device ≡ none) ↔ ((0 < 9) × Short 9 (some 4)))
    × ((write_anywhere none 5 (replicate 5 b'x') grown_device ≡ none)
        ↔ ((n : ℕ) × (some 4 ≡ some n) × (n < min 5 9)))
unfolding run Leaky.dev_write
outside_iff_example = outside_iff none 4 grown grown_device false 1 0 none 5 (replicate 5 b'x') refl

abbrev holding : Gold.Device.GoldDev
holding = record { buffer = 7 ∷ replicate 255 0; head = 1; tail = 0; size = 1 }

abbrev quiet : Gold.Device.Signals
quiet = record { wait = false; lock = false }

gold_handlers_locked_example :
    let d = holding in
    let ctx : Gold.Device.FileCtx = record { nonblocking = true } in
    (Gold.Locking.read_steps ctx quiet (λ i. i == 0) 4 (free d)
      ≡ some (Gold.Locking.Whole.unlocked (Gold.Device.gold_read ctx quiet (λ i. i == 0) 4 d) d))
    × (Gold.Locking.write_steps ctx quiet (λ i. i == 0) (1 ∷ 2 ∷ []) (free d)
        ≡ some (
            Gold.Locking.Whole.unlocked
              (Gold.Device.gold_write ctx quiet (λ i. i == 0) (1 ∷ 2 ∷ []) d)
              d))
    × (Gold.Locking.poll_steps (free d) ≡ some (some (Gold.Device.gold_poll d), free d))
    × (Gold.Locking.ioctl_steps false false Gold.Device.reset (free d)
        ≡ some (
            Gold.Locking.Whole.unlocked
              (some (Gold.Device.gold_ioctl false false Gold.Device.reset d))
              d))
gold_handlers_locked_example =
    gold_handlers_locked (record { nonblocking = true }) quiet (λ i. i == 0) 4 (1 ∷ 2 ∷ []) false
      false Gold.Device.reset holding

abbrev waiting_message : Fixed.Device.Device
waiting_message = record { buffer = 7 ∷ replicate 127 0; data_size = 1; blocking_mode = pos 1 }

fixed_handlers_locked_example :
    let d = waiting_message in
    (Fixed.Locking.read_steps false false true 4 (free d)
      ≡ some (Fixed.Locking.Whole.unlocked (Fixed.Device.my_read false false true 4 d) d))
    × (Fixed.Locking.write_steps false 1 (1 ∷ 2 ∷ []) (free d)
        ≡ some
            (Fixed.Locking.Whole.unlocked (some (Fixed.Device.my_write false 1 (1 ∷ 2 ∷ []) d)) d))
    × (Fixed.Locking.ioctl_steps true false (Fixed.Device.set_blocking (pos 0)) (free d)
        ≡ some (
            Fixed.Locking.Whole.changed
              (Fixed.Device.my_ioctl true false (Fixed.Device.set_blocking (pos 0)) d)))
fixed_handlers_locked_example =
    fixed_handlers_locked false false true 4 1 (1 ∷ 2 ∷ []) (Fixed.Device.set_blocking (pos 0))
      waiting_message

-- One event, and two readers behind their wait.
abbrev one_event : Ring
one_event = record {
  ring = record { code = 30; value = 1 } ∷ replicate 127 no_event;
  head = 1;
  tail = 0;
}

overrun_lem_example :
    let s = served 2 one_event in
    (has_event one_event ≡ true)
    × (s.0 ≡ record { code = 30; value = 1 } ∷ (no_event ∷ []))
    × (count s.1 ≡ 127)
    × (has_event s.1 ≡ true)
overrun_lem_example =
    overrun_lem 1 one_event (omega arith) (omega arith) (omega arith) (omega arith)

-- A process that has written the first of two bytes.
abbrev two_bytes : Request
two_bytes = writing true (1 ∷ 2 ∷ [])

abbrev called : Bytes.System
called = record Bytes.start {
  pc = update Bytes.start.pc 0 (Bytes.after two_bytes (enter false two_bytes Bytes.start.dev));
}

abbrev inside : Bytes.System
inside = record called {
  pc = update called.pc 0 (Bytes.begun (λ i. false) two_bytes);
  holder = some 0;
  promised = Bytes.promise (λ i. false) two_bytes called.dev;
  before = called.received;
}

abbrev one_stored : Bytes.System
one_stored = record inside {
  dev = Gold.Device.store_head 1 inside.dev;
  pc = update inside.pc 0 (Bytes.writes (λ i. false) (2 ∷ []) 1);
  accepted = 1 ∷ [];
}

one_stored-Reach : Bytes.Reach one_stored
unfolding Gold.Device.write_enter Gold.Device.buffer_full
one_stored-Reach =
    Bytes.next
      (Bytes.next (Bytes.next Bytes.here (Bytes.call 0 two_bytes false refl))
        (Bytes.lock 0 two_bytes (λ i. false) refl refl refl))
      (Bytes.store 0 (λ i. false) 1 (2 ∷ []) 0 refl refl refl)

sections_are_atomic_example :
    let s = one_stored in
    IsValid s.dev
    × (1 ∷ [] ≡ [] ++ contents s.dev)
    × ((i j : ℕ) → Inside (s.pc i) → Inside (s.pc j) → i ≡ j)
    × ((i : ℕ) (ret : Ret) (wake : Gold.Device.Wake)
        → Bytes.ending (s.pc i) s.dev ≡ some (ret, wake)
        → AsPromised s ret wake)
sections_are_atomic_example = sections_are_atomic one_stored-Reach
