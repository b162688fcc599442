-- ===== src/Gold/Threads/Crowd.antt =====
-- Two readers at the wait of gold_read, LKM/mutex_sleep_ioctl_exercise/gold_device.c, and bytes for one.
use linux_kernel_modules.Base.{
  ℕ, zero, suc, ◌≡◌, ◌≢◌, ◌≤◌, refl, ap, ◌∙◌, false, ◌==◌, take, drop, length, arith, ok, min,
  length-drop,
}
use linux_kernel_modules.Gold.Device.{
  GoldDev, go, Outcome, read_enter, read_locked, read_loop, wait_event_interruptible, buffer_empty,
}
use linux_kernel_modules.Gold.Queue.{seen}
use linux_kernel_modules.Gold.Inv.{IsValid, contents, length-contents}
use linux_kernel_modules.Gold.Refine.{calm, view, view-read_loop}

not_empty : (d : GoldDev) → d.size ≢ 0 → (d.size == 0) ≡ false
not_empty d ne = ground arith

read_loop-empty : (more : ℕ) (d : GoldDev) → d.size ≡ 0 → (read_loop calm more 0 d).ret ≡ ok 0
unfolding read_loop
read_loop-empty zero d e = refl
read_loop-empty (suc more) d e = rw e

-- A ring that one reader empties: a reader that was let through the wait before it, and takes the
-- lock after it, returns 0 however many bytes it asked for.
pub second_reader_gets_nothing :
    (d : GoldDev) (count more : ℕ)
    → IsValid d
    → d.size ≢ 0
    → d.size ≤ count
    → let first = read_locked false calm count d in
      (read_enter false false d ≡ go)
      × (first.ret ≡ ok d.size)
      × ((read_locked false calm more first.dev).ret ≡ ok 0)
unfolding read_enter read_locked buffer_empty wait_event_interruptible
second_reader_gets_nothing d count more v ne le =
    (rw (not_empty d ne), first_ret, read_loop-empty more first.dev drained)
  where
    first : Outcome
    first = read_loop calm count 0 d

    seen_first :
        view first
        ≡ seen
            (drop count (contents d))
            (take count (contents d))
            (ok (min count (length (contents d))))
    seen_first = view-read_loop count d v

    first_ret : first.ret ≡ ok d.size
    first_ret = ap (λ o. o.ret) seen_first ∙ ap ok (omega (arith, length-contents d))

    drained : first.dev.size ≡ 0
    drained = omega (
      arith,
      ap (λ o. length o.held) seen_first,
      length-contents first.dev,
      length-contents d,
      length-drop count (contents d),
    )
