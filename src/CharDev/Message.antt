-- ===== src/CharDev/Message.antt =====
-- The buffer of LKM/chrdev_read_write/read_write.c and, with one difference, of
-- LKM/chrdev_mutex/read_write_mutex.c, which also takes a mutex from open to close.
pub mod Client
pub mod Exclusive
use linux_kernel_modules.Base.{
  ℕ, ◌-◌, ◌≤◌, ◌≡◌, ap, ap₂, ◌∙◌, Bool, true, false, Option, none, some, List, ◌++◌, length, take,
  min, arith, replicate, if◌then◌else◌, Ret, ok, fail, eintr,
}
use linux_kernel_modules.UserCopy.{copied_in, length-copied_in, take-copied_in, take-copied_in_all}

abbrev pub buf_size : ℕ
buf_size = 255

-- The static `buffer` and `buffer_pointer`.
pub record Device : Type 0 where
  pub buffer : List ℕ
  pub buffer_pointer : ℕ

abbrev pub fresh : Device
fresh = record { buffer = replicate buf_size 0; buffer_pointer = 0 }

-- `driver_read`: the bytes that reach the user, and the return value. The offset is not used.
unfoldable pub driver_read : (not_copied count : ℕ) → Device → List ℕ × ℕ
driver_read not_copied count d =
    let to_copy = min count d.buffer_pointer in
    (take (to_copy - not_copied) d.buffer, to_copy - not_copied)

-- `driver_read` of read_write_mutex.c.
abbrev pub mutex_read : (not_copied count : ℕ) → Device → List ℕ × ℕ
mutex_read = driver_read

-- `driver_write` of read_write.c: `buffer_pointer = to_copy`.
unfoldable pub driver_write : (not_copied : ℕ) → List ℕ → Device → Device × ℕ
driver_write not_copied src d =
    let to_copy = min (length src) buf_size in
    (
      record { buffer = copied_in to_copy not_copied src d.buffer; buffer_pointer = to_copy },
      to_copy - not_copied,
    )

-- `driver_write` of read_write_mutex.c: `buffer_pointer = to_copy - not_copied`.
unfoldable pub mutex_write : (not_copied : ℕ) → List ℕ → Device → Device × ℕ
mutex_write not_copied src d =
    let to_copy = min (length src) buf_size in
    (
      record {
        buffer = copied_in to_copy not_copied src d.buffer;
        buffer_pointer = to_copy - not_copied;
      },
      to_copy - not_copied,
    )

-- The mutex of read_write_mutex.c: `driver_open` takes it (`none`: the process sleeps until it is
-- free), `driver_close` gives it back. The state says whether it is taken.
unfoldable pub driver_open : (signal taken : Bool) → Option (Bool × Ret)
driver_open signal taken =
    if taken
    then (if signal then some (taken, fail eintr) else none)
    else if signal
    then some (taken, fail eintr)
    else some (true, ok 0)

unfoldable pub driver_close : (taken : Bool) → Bool × Ret
driver_close taken = (false, ok 0)

pub record IsValid (d : Device) : Type 0 where
  pub storage : length d.buffer ≡ buf_size
  pub pointer_in : d.buffer_pointer ≤ buf_size

-- What a complete read returns.
abbrev pub message : Device → List ℕ
message d = take d.buffer_pointer d.buffer

-- Both writes keep the buffer's 255 bytes and a pointer within them, whatever part of the user's
-- memory cannot be read.
pub writes-IsValid :
    (not_copied : ℕ) (src : List ℕ) (d : Device)
    → not_copied ≤ min (length src) buf_size
    → IsValid d
    → IsValid (driver_write not_copied src d).0 × IsValid (mutex_write not_copied src d).0
unfolding driver_write mutex_write
writes-IsValid not_copied src d h v = (
  record { storage = kept; pointer_in = omega arith },
  record { storage = kept; pointer_in = omega arith },
)
  where
    kept : length (copied_in (min (length src) buf_size) not_copied src d.buffer) ≡ buf_size
    kept =
        length-copied_in (min (length src) buf_size) not_copied src d.buffer (omega arith) h
          (omega arith)
        ∙ v.storage

-- A read that follows a write returns the first bytes of what was written, as many as were asked
-- for and stored; reading does not use the message up, so that the same read returns it again.
pub driver_read-driver_write :
    (src : List ℕ) (count : ℕ) (d : Device)
    → let stored = min (length src) buf_size in
      driver_read 0 count (driver_write 0 src d).0 ≡ (take (min count stored) src, min count stored)
unfolding driver_read driver_write
driver_read-driver_write src count d =
    ap₂ (λ l n. (l, n))
      (ap (λ n. take n (copied_in (min (length src) buf_size) 0 src d.buffer)) (omega arith)
        ∙ take-copied_in (min count (min (length src) buf_size)) (min (length src) buf_size) 0 src
            d.buffer (omega arith) (omega arith))
      (omega arith)

-- After a copy that breaks off, the two modules differ: read_write_mutex.c holds the bytes that
-- came, and read_write.c those with a zero for each that did not.
pub partial_writes :
    (not_copied : ℕ) (src : List ℕ) (d : Device)
    → not_copied ≤ min (length src) buf_size
    → let came = min (length src) buf_size - not_copied in
      (message (mutex_write not_copied src d).0 ≡ take came src)
      × (message (driver_write not_copied src d).0 ≡ take came src ++ replicate not_copied 0)
unfolding driver_write mutex_write
partial_writes not_copied src d h = (
  take-copied_in (min (length src) buf_size - not_copied) (min (length src) buf_size) not_copied src
      d.buffer (omega arith) (omega arith),
  take-copied_in_all (min (length src) buf_size) not_copied src d.buffer h (omega arith),
)
