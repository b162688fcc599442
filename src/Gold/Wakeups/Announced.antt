-- ===== src/Gold/Wakeups/Announced.antt =====
-- What a call of LKM/mutex_sleep_ioctl_exercise/gold_device.c makes true for a sleeper it announces
-- with a wake-up.
use linux_kernel_modules.Base.{
  ℕ, ◌≡◌, refl, ap, ◌∙◌, Bool, true, false, List, length, length-append, take, ◌⊎◌, inl, inr, arith,
  Ret, ok, fail, eagain, eintr, efault,
}
use linux_kernel_modules.Gold.Device.{
  GoldDev, Outcome, readers, writers, read_locked, write_locked, gold_ioctl, Cmd, reset,
  get_bufsize, other, read_enter, write_enter, wait_event_interruptible, buffer_empty, buffer_full,
}
use linux_kernel_modules.Gold.Inv.{IsValid, contents, length-contents}
use linux_kernel_modules.Gold.Reading.{ReadReturn, read_locked-ReadDone, mode, signals}
use linux_kernel_modules.Gold.Writing.{WriteReturn, write_locked-WriteDone}
use linux_kernel_modules.Gold.Refine.{calm}
use linux_kernel_modules.Gold.Threads.{Request, reading, writing, enter}
use linux_kernel_modules.Gold.Wakeups.{sleeping, after, queue, locked, Blocked}

pub locked-IsValid : (r : Request) (d : GoldDev) → IsValid d → IsValid (locked r d).dev
locked-IsValid (reading nb count) d v =
    (read_locked-ReadDone nb (signals false false) calm count d v).valid
locked-IsValid (writing nb src) d v =
    (write_locked-WriteDone nb (signals false false) calm src d v).valid

-- A process goes to sleep only when its condition does not hold.
pub after-Blocked :
    (r q : Request) (signal : Bool) (d : GoldDev)
    → after r (enter signal r d) ≡ sleeping q
    → Blocked q d
unfolding read_enter write_enter wait_event_interruptible buffer_empty buffer_full
after-Blocked (reading nb count) (reading nb' count') signal d e = ground arith
after-Blocked (reading nb count) (writing nb' src') signal d e = ground arith
after-Blocked (writing nb src) (reading nb' count') signal d e = ground arith
after-Blocked (writing nb src) (writing nb' src') signal d e = ground arith

-- A read that no fault stops wakes the writers, or changes nothing.
read_wakes :
    (nb : Bool) (count : ℕ) (d : GoldDev) (o : Outcome) (r : Ret)
    → ReadReturn (mode nb) (signals false false) calm count d o r
    → (o.wake ≡ writers) ⊎ (o.dev ≡ d)
read_wakes nb count d o (ok n) h = inl h.2
read_wakes nb count d o (fail eagain) h = inr h.2
read_wakes nb count d o (fail eintr) h = inr h.1
read_wakes nb count d o (fail efault) h = cc
read_wakes nb count d o (fail _) h = absurd h

write_wakes :
    (nb : Bool) (src : List ℕ) (d : GoldDev) (taken : ℕ) (o : Outcome) (r : Ret)
    → WriteReturn (mode nb) (signals false false) calm src d taken o r
    → (o.wake ≡ readers) ⊎ (o.dev ≡ d)
write_wakes nb src d taken o (ok n) h = inl h.2
write_wakes nb src d taken o (fail eagain) h = inr h.2
write_wakes nb src d taken o (fail eintr) h = inr h.1
write_wakes nb src d taken o (fail efault) h = cc
write_wakes nb src d taken o (fail _) h = absurd h

-- What a call under the mutex makes true for a sleeper, it announces.
pub locked-Blocked :
    (r q : Request) (d : GoldDev)
    → IsValid d
    → Blocked q d
    → Blocked q (locked r d).dev ⊎ ((locked r d).wake ≡ queue q)
locked-Blocked (reading nb count) (reading nb' count') d v b =
    let h = read_locked-ReadDone nb (signals false false) calm count d v in
    inl (
      omega (
        arith,
        ap length h.split,
        length-append (read_locked nb calm count d).out
            (contents (read_locked nb calm count d).dev),
        length-contents d,
        length-contents (read_locked nb calm count d).dev,
      ))
locked-Blocked (reading nb count) (writing nb' src') d v b =
    let h = read_locked-ReadDone nb (signals false false) calm count d v in
    elim (read_wakes nb count d (read_locked nb calm count d) (read_locked nb calm count d).ret
      h.returns) [ inl w ↦ inr w | inr e ↦ inl (ap (λ x. x.size) e ∙ b) ]
locked-Blocked (writing nb src) (reading nb' count') d v b =
    let h = write_locked-WriteDone nb (signals false false) calm src d v in
    elim (write_wakes nb src d h.taken (write_locked nb calm src d) (write_locked nb calm src d).ret
      h.returns) [ inl w ↦ inr w | inr e ↦ inl (ap (λ x. x.size) e ∙ b) ]
locked-Blocked (writing nb src) (writing nb' src') d v b =
    let h = write_locked-WriteDone nb (signals false false) calm src d v in
    let in_bounds = h.valid.size_in in
    inl (
      omega (
        arith,
        in_bounds,
        ap length h.appended,
        length-append (contents d) (take h.taken src),
        length-contents d,
        length-contents (write_locked nb calm src d).dev,
      ))

pub gold_ioctl-Blocked :
    (fault : Bool) (cmd : Cmd) (q : Request) (d : GoldDev)
    → Blocked q d
    → Blocked q (gold_ioctl false fault cmd d).dev ⊎ ((gold_ioctl false fault cmd d).wake ≡ queue q)
unfolding gold_ioctl
gold_ioctl-Blocked fault reset (reading nb count) d b = inl refl
gold_ioctl-Blocked fault reset (writing nb src) d b = inr refl
gold_ioctl-Blocked true get_bufsize q d b = inl b
gold_ioctl-Blocked false get_bufsize q d b = inl b
gold_ioctl-Blocked fault other q d b = inl b
