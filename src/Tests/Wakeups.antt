-- ===== src/Tests/Wakeups.antt =====
-- The theorems on the wait queues of the gold device at a concrete run: process 1 sleeps in a read of
-- the empty ring, and process 0 writes two bytes.
use linux_kernel_modules.Base.{update, ℕ, ◌==◌, ◌≡◌, refl, false, [], ◌∷◌}
use linux_kernel_modules.Gold.Device.{
  fresh, read_enter, write_enter, write_locked, write_loop, buffer_empty, buffer_full,
  wait_event_interruptible,
}
use linux_kernel_modules.Gold.Threads.{Request, reading, writing}
use linux_kernel_modules.Gold.Wakeups.{
  System, start, locked, sleeping, ready, woken, waking, queue, Step, Reach, here, next, call, lock,
  Blocked,
}
use linux_kernel_modules.Gold.Wakeups.NoLoss.{IsLossless, Reach-IsLossless}
use linux_kernel_modules.Gold.Wakeups.Progress.{roused, looked, sleeper_gets_through}

abbrev asking : Request
asking = reading false 8

abbrev giving : Request
giving = writing false (4 ∷ 5 ∷ [])

abbrev one_asleep : System
one_asleep = record start { pc = update start.pc 1 (sleeping asking) }

abbrev two_in : System
two_in = record one_asleep { pc = update one_asleep.pc 0 (ready giving) }

abbrev about_to_wake : System
about_to_wake = record two_in {
  dev = (locked giving fresh).dev;
  pc = update two_in.pc 0 (waking (locked giving fresh).wake);
}

reached : Reach about_to_wake
unfolding read_enter write_enter wait_event_interruptible buffer_empty buffer_full
reached =
    next (next (next here (call 1 asking false refl)) (call 0 giving false refl))
      (lock 0 giving refl)

Reach-IsLossless_example : IsLossless about_to_wake
Reach-IsLossless_example = Reach-IsLossless reached

two_bytes : ¬ Blocked asking about_to_wake.dev
unfolding write_locked write_loop
two_bytes e = cc

sleeper_gets_through_example :
    let s = about_to_wake in
    (j : ℕ) × (s.pc j ≡ waking (queue asking))
    × ((j == 1) ≡ false)
    × Step s (roused j asking s)
    × ((roused j asking s).pc 1 ≡ woken asking)
    × Step (roused j asking s) (looked 1 asking (roused j asking s))
    × ((looked 1 asking (roused j asking s)).pc 1 ≡ ready asking)
    × ((looked 1 asking (roused j asking s)).dev ≡ s.dev)
sleeper_gets_through_example = sleeper_gets_through 1 asking reached refl two_bytes
