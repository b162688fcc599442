-- ===== src/Tests/Orders.antt =====
-- The theorems on orders of steps at concrete runs.
use mathlib.Core.Path.{refl}
use linux_kernel_modules.Base.{◌≡◌, ◌≢◌, ◌⊎◌, true, false, [], ◌∷◌, arith}
use linux_kernel_modules.Delivery.{InOrder}
use linux_kernel_modules.Keyboard.Ring.{KeyEvent, push_event, take_event, has_event}
use linux_kernel_modules.Keyboard.Ring.OneReader
use linux_kernel_modules.Keyboard.Ring.OneReader.{one_reader-InOrder}
use linux_kernel_modules.Fixed.Device.{fresh, my_write, read_locked}
use linux_kernel_modules.Fixed.Order
use linux_kernel_modules.Fixed.Order.{Beginning, messages-InOrder}
use linux_kernel_modules.Fixed.Wakeups.{fixed_dev, Act, readers_get_through}
use linux_kernel_modules.Waiting
use linux_kernel_modules.Waiting.{AllThrough}

abbrev press : KeyEvent
press = record { code = 30; value = 1 }

abbrev letting_go : KeyEvent
letting_go = record { code = 30; value = 0 }

-- The release comes between the wait and the lock, and is still in the ring at the end.
abbrev one_taken : OneReader.System
one_taken = record {
  ring = (take_event (push_event letting_go (push_event press OneReader.start.ring))).1;
  waited = false;
  typed = press ∷ letting_go ∷ [];
  received = press ∷ [];
}

one_taken_reached : OneReader.Reach one_taken
unfolding push_event take_event has_event
one_taken_reached =
    OneReader.next
      (OneReader.next
        (OneReader.next (OneReader.next OneReader.here (OneReader.event press))
          (OneReader.wait refl refl))
        (OneReader.event letting_go))
      (OneReader.take false refl)

one_reader-InOrder_example :
    InOrder ◌≡◌ (press ∷ []) (press ∷ letting_go ∷ [])
    × ((false ≡ false) ⊎ (has_event one_taken.ring ≡ true))
one_reader-InOrder_example = one_reader-InOrder one_taken_reached

-- The first message is overwritten, the second read by halves: its end is lost.
abbrev second_read : Order.System
second_read = record {
  dev =
      (read_locked true false 1
        (my_write false 0 (3 ∷ 4 ∷ []) (my_write false 0 (1 ∷ 2 ∷ []) fresh).dev).dev).dev;
  written = (1 ∷ 2 ∷ []) ∷ (3 ∷ 4 ∷ []) ∷ [];
  received = (3 ∷ []) ∷ [];
}

second_read_reached : Order.Reach second_read
unfolding my_write read_locked
second_read_reached =
    Order.next
      (Order.next (Order.next Order.here (Order.write (1 ∷ 2 ∷ []))) (Order.write (3 ∷ 4 ∷ [])))
      (Order.read true false 1)

messages-InOrder_example : InOrder Beginning ((3 ∷ []) ∷ []) ((1 ∷ 2 ∷ []) ∷ (3 ∷ 4 ∷ []) ∷ [])
messages-InOrder_example = messages-InOrder second_read_reached

-- Two readers sleep, and a message is written.
abbrev two_asleep : Waiting.System fixed_dev
two_asleep = record {
  state = (my_write false 0 (7 ∷ []) fresh).dev;
  looking = 0;
  asleep = 2;
  through = 0;
  waking = 1;
}

two_asleep_reached : Waiting.Steps fixed_dev (Waiting.start fixed_dev fresh) two_asleep
unfolding my_write
two_asleep_reached =
    Waiting.next
      (Waiting.next
        (Waiting.next
          (Waiting.next (Waiting.next Waiting.here Waiting.begin)
            (Waiting.sleep refl (omega arith)))
          Waiting.begin)
        (Waiting.sleep refl (omega arith)))
      (Waiting.act _ true (Act.write false 0 (7 ∷ []) (omega arith)))

one_byte : two_asleep.state.data_size ≢ 0
unfolding my_write
one_byte = omega arith

readers_get_through_example : (t : Waiting.System fixed_dev) × AllThrough fixed_dev two_asleep t
readers_get_through_example = readers_get_through two_asleep two_asleep_reached one_byte
