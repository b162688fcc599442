-- ===== src/Fixed/Laws.antt =====
-- What the fixed device keeps and what it returns.
use native.Mathlib.Nat.{sub_self}
use linux_kernel_modules.Base.{
  ℕ, ◌≤◌, ◌≡◌, ◌≢◌, refl, ap, ◌∙◌, Bool, true, false, some, List, [], ◌++◌, ◌==◌, length, take,
  drop, replicate, min, ok, fail, efault, arith,
}
use linux_kernel_modules.UserCopy.{copied_in, length-copied_in, take-copied_in, take-replicate}
use linux_kernel_modules.Kernel.{is_zero}
use linux_kernel_modules.Fixed.Device.{
  Device, buf_size, read_enter, read_locked, my_read, my_write, my_ioctl, Cmd, reset, other,
  set_blocking, is_flag, go,
}

pub record IsValid (d : Device) : Type 0 where
  pub storage : length d.buffer ≡ buf_size
  pub size_in : d.data_size ≤ buf_size
  pub mode_in : is_flag d.blocking_mode ≡ true

-- The message that waits to be read.
abbrev pub message : Device → List ℕ
message d = take d.data_size d.buffer

pub my_write-IsValid :
    (lock_signal : Bool) (missing : ℕ) (src : List ℕ) (d : Device)
    → missing ≤ min (length src) buf_size
    → IsValid d
    → IsValid (my_write lock_signal missing src d).dev
unfolding my_write
my_write-IsValid lock_signal missing src d hm v = ground (
  arith,
  length-copied_in (min (length src) buf_size) missing src d.buffer (omega arith) hm (omega arith),
)

pub read_locked-IsValid :
    (blocking fault : Bool) (count : ℕ) (d : Device)
    → IsValid d
    → IsValid (read_locked blocking fault count d).dev
unfolding read_locked
read_locked-IsValid blocking fault count d v = ground arith

pub my_ioctl-IsValid :
    (fault lock_signal : Bool) (cmd : Cmd) (d : Device)
    → IsValid d
    → IsValid (my_ioctl fault lock_signal cmd d).0
unfolding my_ioctl
my_ioctl-IsValid fault lock_signal reset d v = ground arith
my_ioctl-IsValid fault lock_signal (set_blocking val) d v = ground arith
my_ioctl-IsValid fault lock_signal other d v = v

-- A read of a device with a message, in either mode.
pub my_read-message :
    (count : ℕ) (d : Device)
    → d.data_size ≢ 0
    → my_read false false false count d
      ≡ some (record {
        dev = record d { data_size = 0 };
        out = take (min count d.data_size) d.buffer;
        ret = ok (min count d.data_size);
        wake = false;
      })
unfolding my_read
my_read-message count d ne = ground arith

-- A read that runs after a write, with no one in between: it returns the first bytes of what was
-- written, as many as were asked for and stored, and leaves no message; what it did not ask for is
-- gone.
pub my_read-my_write :
    (src : List ℕ) (count : ℕ) (d : Device)
    → IsValid d
    → src ≢ []
    → let stored = min (length src) buf_size in
      ((my_write false 0 src d).ret ≡ ok stored)
      × (my_read false false false count (my_write false 0 src d).dev
          ≡ some (record {
            dev = record (my_write false 0 src d).dev { data_size = 0 };
            out = take (min count stored) src;
            ret = ok (min count stored);
            wake = false;
          }))
unfolding my_write
my_read-my_write src count d v ne = (
  refl,
  my_read-message count (my_write false 0 src d).dev nonempty
      ∙ ap
          (λ l. some (record {
            dev = record (my_write false 0 src d).dev { data_size = 0 };
            out = l;
            ret = ok (min count (min (length src) buf_size));
            wake = false;
          }))
          (take-copied_in (min count (min (length src) buf_size)) (min (length src) buf_size) 0 src
            d.buffer (omega arith) (omega arith)),
)
  where
    nonempty : min (length src) buf_size ≢ 0
    nonempty = ground arith

-- Of two readers that both pass the wait on one message, the second to take the lock finds no
-- message, and returns 0 with no bytes: the lock is held, and `data_size > 0` does not hold.
pub fixed_second_reader_gets_nothing :
    (d : Device) (count more : ℕ) (signal : Bool)
    → d.data_size ≢ 0
    → is_zero d.blocking_mode ≡ false
    → let first = read_locked true false count d in
      (read_enter signal d ≡ go true)
      × (first.dev.data_size ≡ 0)
      × ((read_locked true false more first.dev).ret ≡ ok 0)
      × ((read_locked true false more first.dev).out ≡ [])
unfolding read_enter read_locked
fixed_second_reader_gets_nothing d count more signal ne b =
    (ground arith, refl, ap ok (omega arith), ap (λ n. take n d.buffer) none_left)
  where
    none_left : min more 0 ≡ 0
    none_left = omega arith

-- A write of at least as many bytes as wait, from memory that cannot be read at all, returns
-- -EFAULT, and the message that was waiting still counts as one but is all zeros.
pub failed_write_erases :
    (src : List ℕ) (d : Device)
    → src ≢ []
    → d.data_size ≤ min (length src) buf_size
    → let o = my_write false (min (length src) buf_size) src d in
      (o.ret ≡ fail efault)
      × (o.dev.data_size ≡ d.data_size)
      × (message o.dev ≡ replicate d.data_size 0)
unfolding my_write
failed_write_erases src d ne h =
    rw some_missing
      (refl, refl, rw erased (take-replicate d.data_size (min (length src) buf_size) _ h))
  where
    some_missing : (min (length src) buf_size == 0) ≡ false
    some_missing = ground arith

    erased :
        copied_in (min (length src) buf_size) (min (length src) buf_size) src d.buffer
        ≡ replicate (min (length src) buf_size) 0 ++ drop (min (length src) buf_size) d.buffer
    erased = rw sub_self
