-- ===== src/Gold/Bytes/Atomic.antt =====
-- Byte by byte, gold_read and gold_write of LKM/mutex_sleep_ioctl_exercise/gold_device.c do what they
-- do in one step.
use mathlib.Core.Option.{some-injective}
use linux_kernel_modules.Base.{ℕ, ◌≡◌, refl, sym, ap, ◌∙◌, some, ◌++◌, arith, Ret, append-nil}
use linux_kernel_modules.Gold.Device.{Wake}
use linux_kernel_modules.Gold.Inv.{IsValid, contents}
use linux_kernel_modules.Gold.Threads.{enter}
use linux_kernel_modules.Gold.Bytes.{
  Pc, idle, sleeping, ready, reads, writes, System, ending, Step, call, look, interrupt, refuse,
  lock, move, store, unlock, reset, Reach, here, next,
}
use linux_kernel_modules.Gold.Bytes.Rounds.{read_loop-ends, write_loop-ends}
use linux_kernel_modules.Gold.Bytes.Section.{
  Inside, Promised, IsSound, outside-after, ending-Inside,
}
use linux_kernel_modules.Gold.Bytes.Kept.{
  outside-IsSound, lock-IsSound, move-IsSound, store-IsSound, unlock-IsSound, reset-IsSound,
}

Step-IsSound : {s t : System} → Step s t → IsSound s → IsSound t
Step-IsSound {s} (call i r signal e) h =
    outside-IsSound i _ s (outside-after r (enter signal r s.dev)) h
Step-IsSound {s} (look i r signal e) h =
    outside-IsSound i _ s (outside-after r (enter signal r s.dev)) h
Step-IsSound {s} (interrupt i r e) h = outside-IsSound i idle s (λ x. x) h
Step-IsSound {s} (refuse i r e off full) h = outside-IsSound i idle s (λ x. x) h
Step-IsSound {s} (lock i r fault e off fits) h = lock-IsSound i r fault s off fits h
Step-IsSound {s} (move i fault left copied e more fine) h =
    move-IsSound i fault left copied s e more fine h
Step-IsSound {s} (store i fault c src copied e room fine) h =
    store-IsSound i fault c src copied s e room fine h
Step-IsSound {s} (unlock i ret wake e) h = unlock-IsSound i (ret, wake) s e h
Step-IsSound {s} (reset off) h = reset-IsSound s off h

Reach-IsSound : {s : System} → Reach s → IsSound s
Reach-IsSound here = record {
  valid = omega arith;
  ledger = refl;
  alone = λ j x. absurd x;
  kept = λ j. tt;
}
Reach-IsSound (next r st) = Step-IsSound st (Reach-IsSound r)

-- The section of the process that is about to unlock was what Gold.Device says, from the state that
-- it found when it took the mutex.
abbrev pub AsPromised : System → Ret → Wake → Type 0
AsPromised s ret wake =
    (s.dev ≡ s.promised.dev)
    × (ret ≡ s.promised.ret)
    × (wake ≡ s.promised.wake)
    × (s.received ≡ s.before ++ s.promised.out)

ending-AsPromised :
    (s : System) (p : Pc) (ret : Ret) (wake : Wake)
    → Promised s p
    → ending p s.dev ≡ some (ret, wake)
    → AsPromised s ret wake
ending-AsPromised s idle ret wake k e = absurd (ending-Inside idle s.dev (ret, wake) e)
ending-AsPromised s (sleeping r) ret wake k e =
    absurd (ending-Inside (sleeping r) s.dev (ret, wake) e)
ending-AsPromised s (ready r) ret wake k e = absurd (ending-Inside (ready r) s.dev (ret, wake) e)
ending-AsPromised s (reads fault left copied) ret wake k e =
    let done = read_loop-ends fault left copied s.dev ret wake e in
    (
      sym (k.0 ∙ ap (λ o. o.dev) done),
      sym (k.1 ∙ ap (λ o. o.ret) done),
      sym (k.2 ∙ ap (λ o. o.wake) done),
      sym (k.3 ∙ ap (λ o. s.received ++ o.out) done ∙ append-nil s.received),
    )
ending-AsPromised s (writes fault src copied) ret wake k e =
    let done = k.0 ∙ write_loop-ends fault src copied s.dev ret wake e in
    (
      sym (ap (λ o. o.dev) done),
      sym (ap (λ o. o.ret) done),
      sym (ap (λ o. o.wake) done),
      k.1 ∙ sym (ap (λ o. s.before ++ o.out) done ∙ append-nil s.before),
    )

-- In every state that processes reach byte by byte, with any signals and faults, and other processes
-- testing `size` without the mutex between any two bytes: the ring is valid, and the bytes stored
-- by writes, without those that a reset wiped out, are those handed to readers followed by those
-- still held; no two processes are behind the mutex; and
-- where one is about to unlock it, the ring, its return value, the queue it wakes and the bytes it
-- has handed out are those of Gold.Device, which does all of this in one step, from the ring that
-- it found when it took the mutex.
pub sections_are_atomic :
    {s : System}
    → Reach s
    → IsValid s.dev
      × (s.accepted ≡ s.received ++ contents s.dev)
      × ((i j : ℕ) → Inside (s.pc i) → Inside (s.pc j) → i ≡ j)
      × ((i : ℕ) (ret : Ret) (wake : Wake)
          → ending (s.pc i) s.dev ≡ some (ret, wake)
          → AsPromised s ret wake)
sections_are_atomic {s} r =
    let h = Reach-IsSound r in
    (
      h.valid,
      h.ledger,
      λ i j x y. some-injective _ _ (sym (h.alone i x) ∙ h.alone j y),
      λ i ret wake e. ending-AsPromised s (s.pc i) ret wake (h.kept i) e,
    )
