-- ===== src/Fixed/Buggy.antt =====
-- LKM/mutex_sleep_ioctl_exercise/buggy_device.c, the exercise that fixed_device.c solves. The mutex
-- is a Boolean: taken or free.
use linux_kernel_modules.Base.{
  ℕ, ◌≡◌, Bool, true, false, not, Option, none, some, List, [], ◌==◌, leb, if◌then◌else◌, length,
  take, arith, Ret, ok, fail, eagain, einval, ℤ, ◌⊎◌,
}
use linux_kernel_modules.Kernel.{is_zero}
use linux_kernel_modules.UserCopy.{copied_in}

abbrev pub buf_size : ℕ
buf_size = 128

pub record Device : Type 0 where
  pub buffer : List ℕ
  pub data_size : ℕ
  pub blocking_mode : ℤ
  pub locked : Bool

-- `my_open`: `mutex_trylock`, whose result is not looked at; the mutex is taken after it either way.
unfoldable pub my_open : Device → Device × Ret
my_open d = (record d { locked = true }, ok 0)

-- `my_release` unlocks, whoever holds the mutex.
unfoldable pub my_release : Device → Device × Ret
my_release d = (record d { locked = false }, ok 0)

-- What a read copies to the user, and what it leaves.
pub record Reading : Type 0 where
  pub dev : Device
  pub out : List ℕ
  pub ret : Ret

-- `my_read`; `none`: it waits for the mutex, or sleeps holding it. The return value is `data_size`, read
-- again behind the unlock: `late` is what stands there then, the 0 that the read has stored unless a
-- write, which takes no mutex, has come between. `count` is not used.
unfoldable pub my_read : (signal : Bool) (count late : ℕ) → Device → Option Reading
my_read signal count late d =
    let all : Reading = record {
      dev = record d { data_size = 0; locked = false };
      out = take d.data_size d.buffer;
      ret = ok late;
    } in
    if d.locked
    then none
    else if d.data_size == 0
    then (if not (is_zero d.blocking_mode)
        then (if signal then some all else none)
        else some (record { dev = d; out = []; ret = fail eagain }))
    else some all

-- `my_write`, without the mutex and without a bound; `none`: it writes past the end of `buffer`.
-- The result of `copy_from_user` is not looked at.
unfoldable pub my_write : (missing : ℕ) → List ℕ → Device → Option (Device × Ret)
my_write missing src d =
    if leb (length src) buf_size
    then some (
      record d { buffer = copied_in (length src) missing src d.buffer; data_size = length src },
      ok (length src),
    )
    else none

pub data Cmd : Type 0 where
  reset other : Cmd
  set_blocking : (val : ℤ) → Cmd

-- `my_ioctl`, of a readable argument.
unfoldable pub my_ioctl : Cmd → Device → Device × Ret
my_ioctl reset d = (record d { data_size = 0 }, ok 0)
my_ioctl (set_blocking val) d = (record d { blocking_mode = val }, ok 0)
my_ioctl other d = (d, fail einval)

-- A process that opens the device and reads from it waits for the mutex that its own open took; and
-- a read that does return has -EAGAIN, or what stands in `data_size` behind its unlock, also when it
-- copied a message, which it copies whole whatever the length of the user's buffer.
pub my_read_faults :
    (signal : Bool) (count late : ℕ) (d : Device) (o : Reading)
    → my_read signal count late d ≡ some o
    → (my_read signal count late (my_open d).0 ≡ none)
      × (((o.ret ≡ fail eagain) × (o.out ≡ []))
          ⊎ ((o.ret ≡ ok late) × (o.out ≡ take d.data_size d.buffer)))
unfolding my_read my_open
my_read_faults signal count late d o e = ground arith
