-- ===== src/CharDev/Leaky/Resized.antt =====
-- LKM/memory_leak/buggy_leaky_device.c with its parameter `buffer_size`, which can be written while
-- the module is loaded (mode 0644), from `leaky_init` on, which allocates the buffer. The allocation
-- keeps the size that the parameter had when it was made.
pub mod Outside
use linux_kernel_modules.Base.{
  ℕ, zero, suc, ◌-◌, ◌≤◌, ◌<◌, ◌≡◌, ◌↔◌, inl, inr, refl, sym, ap, ap₂, ◌∙◌, Bool, Option, none,
  some, List, [], ◌∷◌, leb, if◌then◌else◌, length, min, arith, Bool-cases, leb→le, Ret, ok,
}
use mathlib.Core.Path.{subst}
use linux_kernel_modules.UserCopy.{copied_in, length-copied_in}
use linux_kernel_modules.CharDev.Leaky.{Device, Reading, dev_read, dev_write, target, write_to}

-- `dev_read` from the hex dump on, which reads `buffer_size` bytes of the allocation; `none`: it
-- reads through NULL, or behind the end.
abbrev pub dumped : (fault : Bool) (len offset : ℕ) → Option (List ℕ) → ℕ → Option Reading
dumped fault len offset none size = none
dumped fault len offset (some b) size =
    if leb size (length b) then some (dev_read fault len offset b size) else none

-- `dev_read`.
unfoldable pub read_anywhere : (fault : Bool) (len offset : ℕ) → Device → Option Reading
read_anywhere fault len offset d =
    if leb d.buffer_size offset
    then some (record { out = []; offset = offset; ret = ok 0 })
    else dumped fault len offset d.buffer d.buffer_size

-- The bytes of a new allocation: whatever was in them.
abbrev pub junk : (ℕ → ℕ) → ℕ → List ℕ
junk old zero = []
junk old (suc n) = old n ∷ junk old n

-- `kmalloc(size)`: refused, or `size` bytes.
abbrev pub kmalloc : Option (ℕ → ℕ) → ℕ → Option (List ℕ)
kmalloc none size = none
kmalloc (some old) size = some (junk old size)

-- `dev_write` from the copy on, into `block`; `none`: it writes behind the end of the allocation.
abbrev pub copied :
    (new block : Option (List ℕ)) (readable : ℕ) → List ℕ → Device → Option (Device × Ret)
copied new none readable src d =
    some (dev_write new (min (length src) d.buffer_size - readable) src d)
copied new (some b) readable src d =
    let to_copy = min (length src) d.buffer_size in
    if leb to_copy (length b) then some (dev_write new (to_copy - readable) src d) else none

-- `dev_write`, where the user can read the first `readable` bytes.
unfoldable pub write_anywhere :
    (heap : Option (ℕ → ℕ)) (readable : ℕ) → List ℕ → Device → Option (Device × Ret)
write_anywhere heap readable src d =
    let new = kmalloc heap d.buffer_size in copied new (target new d) readable src d

-- What happens to the module: calls, and writes of its parameter.
pub data Op : Type 0 where
  read : (fault : Bool) (len offset : ℕ) → Op
  write : (heap : Option (ℕ → ℕ)) (readable : ℕ) (src : List ℕ) → Op
  set_size : ℕ → Op

unfoldable pub step : Op → Device → Option Device
unfolding read_anywhere write_anywhere
step (read fault len offset) d = elim (read_anywhere fault len offset d) [
  | none ↦ none
  | some r ↦ some d
]
step (write heap readable src) d = elim (write_anywhere heap readable src d) [
  | none ↦ none
  | some r ↦ some r.0
]
step (set_size n) d = some (record d { buffer_size = n })

unfoldable pub run : List Op → Device → Option Device
unfolding step
run [] d = some d
run (o ∷ os) d = elim (step o d) [ none ↦ none | some d' ↦ run os d' ]

-- `leaky_init`, which does not look at what kmalloc gives; the steps before it succeed.
abbrev pub leaky_init : (heap : Option (ℕ → ℕ)) → ℕ → Device
leaky_init heap size = record { buffer = kmalloc heap size; buffer_size = size }
