-- ===== src/CharDev/Sleepy.antt =====
-- LKM/chrdev_sleepy/read_write_sleepy.c: readers sleep until a writer sets the flag.
pub mod Wakeups
use linux_kernel_modules.Base.{
  ℕ, suc, ◌+◌, ◌≤◌, Bool, true, false, Option, none, some, List, [], ◌∷◌, if◌then◌else◌, arith,
}

-- `flag`, which is 0 or 1.
abbrev pub Flag : Type 0
Flag = Bool

-- What `driver_read` does behind its wait: the flag it leaves and the return value.
abbrev pub after_wait : Flag → Flag × ℕ
after_wait flag = (false, 0)

-- `driver_read`: `none` while it sleeps; else the flag it leaves and the return value. The wait's
-- return value is not looked at, so that a signal ends the read like a writer does.
unfoldable pub driver_read : (signal : Bool) → Flag → Option (Flag × ℕ)
driver_read signal flag =
    if flag then some (after_wait flag) else if signal then some (after_wait flag) else none

-- `driver_write` of `count` bytes.
unfoldable pub driver_write : (count : ℕ) → Flag → Flag × ℕ
driver_write count flag = (true, count)

pub data Op : Type 0 where
  read : Op
  write : (count : ℕ) → Op

-- How many reads return, over a run in which no signal comes and each call runs by itself.
unfoldable pub returned : List Op → Flag → ℕ
unfolding driver_read driver_write
returned [] flag = 0
returned (write count ∷ ops) flag = returned ops (driver_write count flag).0
returned (read ∷ ops) flag = elim (driver_read false flag) [
  | none ↦ returned ops flag
  | some o ↦ suc (returned ops o.0)
]

unfoldable pub writes : List Op → ℕ
writes [] = 0
writes (write count ∷ ops) = suc (writes ops)
writes (read ∷ ops) = writes ops

abbrev pub raised : Flag → ℕ
raised flag = if flag then 1 else 0

-- A write lets at most one read return: the reads that return are no more than the writes, and one
-- if the flag was set at the start.
pub returned-le-writes :
    (ops : List Op) (flag : Flag) → returned ops flag ≤ writes ops + raised flag
unfolding returned writes
returned-le-writes [] flag = omega arith
returned-le-writes (write count ∷ ops) flag = omega (arith, returned-le-writes ops true)
returned-le-writes (read ∷ ops) true = omega (arith, returned-le-writes ops false)
returned-le-writes (read ∷ ops) false = omega (arith, returned-le-writes ops false)
