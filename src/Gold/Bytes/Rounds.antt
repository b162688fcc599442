-- ===== src/Gold/Bytes/Rounds.antt =====
-- One round of the loops of gold_read and gold_write of
-- LKM/mutex_sleep_ioctl_exercise/gold_device.c, and their ends.
use linux_kernel_modules.Base.{
  ℕ, zero, suc, ◌+◌, ◌≡◌, ◌≢◌, refl, Bool, false, some, List, [], ◌∷◌, get_or, arith, Ret,
}
use linux_kernel_modules.Gold.Device.{
  GoldDev, Wake, read_locked, write_locked, read_loop, write_loop, buffer_empty, buffer_full,
  advance_tail, store_head, cons_out,
}
use linux_kernel_modules.Gold.Threads.{reading, writing}
use linux_kernel_modules.Gold.Bytes.{reads, writes, refused, ending}

pub read_loop-ends :
    (fault : ℕ → Bool) (left copied : ℕ) (d : GoldDev) (r : Ret) (w : Wake)
    → ending (reads fault left copied) d ≡ some (r, w)
    → read_loop fault left copied d ≡ record { dev = d; out = []; ret = r; wake = w }
unfolding ending read_loop
read_loop-ends fault zero copied d r w e = ground arith
read_loop-ends fault (suc left) copied d r w e = ground arith

pub write_loop-ends :
    (fault : ℕ → Bool) (src : List ℕ) (copied : ℕ) (d : GoldDev) (r : Ret) (w : Wake)
    → ending (writes fault src copied) d ≡ some (r, w)
    → write_loop fault src copied d ≡ record { dev = d; out = []; ret = r; wake = w }
unfolding ending write_loop
write_loop-ends fault [] copied d r w e = ground arith
write_loop-ends fault (c ∷ src) copied d r w e = ground arith

pub read_loop-moves :
    (fault : ℕ → Bool) (left copied : ℕ) (d : GoldDev)
    → buffer_empty d ≡ false
    → fault copied ≡ false
    → read_loop fault (suc left) copied d
      ≡ cons_out (get_or d.buffer d.tail 0) (read_loop fault left (copied + 1) (advance_tail d))
unfolding read_loop
read_loop-moves fault left copied d more fine = rw (more, fine) refl

pub write_loop-stores :
    (fault : ℕ → Bool) (c : ℕ) (src : List ℕ) (copied : ℕ) (d : GoldDev)
    → buffer_full d ≡ false
    → fault copied ≡ false
    → write_loop fault (c ∷ src) copied d ≡ write_loop fault src (copied + 1) (store_head c d)
unfolding write_loop
write_loop-stores fault c src copied d room fine = rw (room, fine) refl

pub not_empty : (d : GoldDev) → buffer_empty d ≡ false → d.size ≢ 0
unfolding buffer_empty
not_empty d h = ground arith

pub not_full : (d : GoldDev) → buffer_full d ≡ false → d.size ≢ 256
unfolding buffer_full
not_full d h = ground arith

pub read_locked-loop :
    (nonblocking : Bool) (fault : ℕ → Bool) (count : ℕ) (d : GoldDev)
    → refused (reading nonblocking count) d ≡ false
    → read_locked nonblocking fault count d ≡ read_loop fault count 0 d
unfolding read_locked
read_locked-loop nonblocking fault count d e = rw e refl

pub write_locked-loop :
    (nonblocking : Bool) (fault : ℕ → Bool) (src : List ℕ) (d : GoldDev)
    → refused (writing nonblocking src) d ≡ false
    → write_locked nonblocking fault src d ≡ write_loop fault src 0 d
unfolding write_locked
write_locked-loop nonblocking fault src d e = rw e refl
