-- ===== src/Fixed/Order.antt =====
-- The messages that go through the fixed device of
-- LKM/mutex_sleep_ioctl_exercise/fixed_device.c, with any number of readers and writers. Each part
-- under the lock is one step, so that between the wait of a read and its lock others may run.
use linux_kernel_modules.Base.{
  ℕ, ◌<◌, ◌≡◌, refl, sym, ◌∙◌, Bool, true, false, not, ◌&&◌, List, [], ◌∷◌, ◌++◌, ◌==◌, ◌⊎◌, inl,
  inr, arith, Bool-cases, length, take, min, take-take-min, take-min, take-nil, length-take,
}
use linux_kernel_modules.UserCopy.{take-copied_in}
use linux_kernel_modules.Delivery.{InOrder, nothing, lost, got}
use linux_kernel_modules.Fixed.Device.{
  Device, fresh, buf_size, read_locked, my_write, my_ioctl, Cmd, reset, other, set_blocking,
}
use linux_kernel_modules.Fixed.Laws.{message}

-- `written`: of each write that succeeded, the bytes that were stored; `received`: the bytes of each
-- read that gave some, both oldest first.
pub record System : Type 0 where
  pub dev : Device
  pub written : List (List ℕ)
  pub received : List (List ℕ)

-- A list with one more entry, unless that is empty.
abbrev pub noted : List (List ℕ) → List ℕ → List (List ℕ)
noted ms [] = ms
noted ms (x ∷ xs) = ms ++ ((x ∷ xs) ∷ [])

abbrev pub stored : List ℕ → List ℕ
stored src = take buf_size src

pub data Step (s : System) : System → Type 0 where
  -- A read takes the lock, in the mode that it saw before.
  read :
      (blocking fault : Bool) (count : ℕ)
      → Step s (record s {
        dev = (read_locked blocking fault count s.dev).dev;
        received = noted s.received (read_locked blocking fault count s.dev).out;
      })
  -- A write of memory that can be read.
  write :
      (src : List ℕ)
      → Step s (record s {
        dev = (my_write false 0 src s.dev).dev;
        written = noted s.written (stored src);
      })
  -- A write that a signal ends before its lock.
  interrupt : (src : List ℕ) → Step s (record s { dev = (my_write true 0 src s.dev).dev })
  -- A write of memory that cannot be read, while no message waits.
  failed_write :
      (missing : ℕ) (src : List ℕ)
      → 0 < missing
      → s.dev.data_size ≡ 0
      → Step s (record s { dev = (my_write false missing src s.dev).dev })
  ioctl :
      (fault signal : Bool) (cmd : Cmd)
      → Step s (record s { dev = (my_ioctl fault signal cmd s.dev).0 })

abbrev pub start : System
start = record { dev = fresh; written = []; received = [] }

pub data Reach : System → Type 0 where
  here : Reach start
  next : {s t : System} → Reach s → Step s t → Reach t

-- What a reader gets is the beginning of a message.
abbrev pub Beginning : List ℕ → List ℕ → Type 0
Beginning m out = (count : ℕ) × (out ≡ take count m)

-- No message waits, or the last one written does, which nobody has received.
abbrev IsSound : Device → List (List ℕ) → List (List ℕ) → Type 0
IsSound d written received =
    (d.data_size ≡ 0) × InOrder Beginning received written
    ⊎ (before : List (List ℕ)) × (m : List ℕ) × (written ≡ before ++ (m ∷ []))
      × (message d ≡ m)
      × InOrder Beginning received before

IsSound-InOrder :
    (d : Device) (written received : List (List ℕ))
    → IsSound d written received
    → InOrder Beginning received written
IsSound-InOrder d written received (inl (empty, h)) = h
IsSound-InOrder d written received (inr (before, m, e, has, h)) = rw e (lost m h)

-- The last message goes to a reader, which may have asked for nothing.
InOrder-noted :
    (received before : List (List ℕ)) (m out : List ℕ)
    → Beginning m out
    → InOrder Beginning received before
    → InOrder Beginning (noted received out) (before ++ (m ∷ []))
InOrder-noted received before m [] b h = lost m h
InOrder-noted received before m (x ∷ out) b h = got m (x ∷ out) b h

-- A message takes the place of another.
IsSound-noted :
    (d : Device) (written received : List (List ℕ)) (m : List ℕ)
    → message d ≡ m
    → d.data_size ≡ length m
    → InOrder Beginning received written
    → IsSound d (noted written m) received
IsSound-noted d written received [] e n h = inl (n, h)
IsSound-noted d written received (x ∷ m) e n h = inr (written, x ∷ m, refl, e, h)

-- A device in which the message is the same.
IsSound-same :
    (d e : Device) (written received : List (List ℕ))
    → e.data_size ≡ d.data_size
    → message e ≡ message d
    → IsSound d written received
    → IsSound e written received
IsSound-same d e written received n m (inl (empty, h)) = inl (n ∙ empty, h)
IsSound-same d e written received n m (inr (before, last, w, has, h)) =
    inr (before, last, w, m ∙ has, h)

-- What a read does to the message: it leaves it and gives nothing, or takes it and gives its
-- beginning.
read_locked_cases :
    (blocking fault : Bool) (count : ℕ) (d : Device)
    → let o = read_locked blocking fault count d in
      ((o.dev ≡ d) × (o.out ≡ [])) ⊎ ((o.dev.data_size ≡ 0) × (o.out ≡ take count (message d)))
unfolding read_locked
read_locked_cases blocking fault count d = elim (Bool-cases (not blocking && (d.data_size == 0))) [
  | inl again ↦ rw again (inl (refl, refl))
  | inr lock ↦ rw lock (elim (Bool-cases fault) [
    | inl bad ↦ rw bad (inl (refl, refl))
    | inr good ↦ rw good (inr (refl, sym (take-take-min count d.data_size d.buffer)))
  ])
]

read-IsSound :
    (blocking fault : Bool) (count : ℕ) (d : Device) (written received : List (List ℕ))
    → IsSound d written received
    → let o = read_locked blocking fault count d in IsSound o.dev written (noted received o.out)
read-IsSound blocking fault count d written received h =
    elim (read_locked_cases blocking fault count d) [
      | inl (same, nothing_out) ↦ rw (same, nothing_out) h
      | inr (empty, out) ↦ rw out (inl (empty, taken h))
    ]
  where
    taken :
        IsSound d written received
        → InOrder Beginning (noted received (take count (message d))) written
    taken (inl (none_left, h)) = rw (none_left, take-nil count) h
    taken (inr (before, m, e, has, h)) =
        rw (e, has) (InOrder-noted received before m (take count m) (count, refl) h)

write-IsSound :
    (src : List ℕ) (d : Device) (written received : List (List ℕ))
    → IsSound d written received
    → IsSound (my_write false 0 src d).dev (noted written (stored src)) received
unfolding my_write
write-IsSound src d written received h =
    IsSound-noted (my_write false 0 src d).dev written received (stored src)
      (take-copied_in (min (length src) buf_size) (min (length src) buf_size) 0 src d.buffer
          (omega arith) (omega arith)
        ∙ take-min buf_size src)
      (omega (arith, length-take buf_size src)) (IsSound-InOrder d written received h)

ioctl-IsSound :
    (fault signal : Bool) (cmd : Cmd) (d : Device) (written received : List (List ℕ))
    → IsSound d written received
    → IsSound (my_ioctl fault signal cmd d).0 written received
unfolding my_ioctl
ioctl-IsSound fault true reset d written received h = h
ioctl-IsSound fault false reset d written received h =
    inl (refl, IsSound-InOrder d written received h)
ioctl-IsSound fault signal (set_blocking val) d written received h =
    IsSound-same d (my_ioctl fault signal (set_blocking val) d).0 written received (ground arith)
      (ground arith) h
ioctl-IsSound fault signal other d written received h = h

Step-IsSound :
    {s t : System}
    → Step s t
    → IsSound s.dev s.written s.received
    → IsSound t.dev t.written t.received
unfolding my_write
Step-IsSound {s} (read blocking fault count) h =
    read-IsSound blocking fault count s.dev s.written s.received h
Step-IsSound {s} (write src) h = write-IsSound src s.dev s.written s.received h
Step-IsSound {s} (interrupt src) h = h
Step-IsSound {s} (failed_write missing src some_missing empty) h =
    inl (ground arith, IsSound-InOrder s.dev s.written s.received h)
Step-IsSound {s} (ioctl fault signal cmd) h =
    ioctl-IsSound fault signal cmd s.dev s.written s.received h

Reach-IsSound : {s : System} → Reach s → IsSound s.dev s.written s.received
Reach-IsSound here = inl (refl, nothing)
Reach-IsSound (next r st) = Step-IsSound st (Reach-IsSound r)

-- However the reads, writes and ioctls of any number of processes follow each other, with any
-- signals and any faults of reads and ioctls, and writes failing only while no message waits: the
-- bytes of each read that gives any are the beginning of a message that was written, the message
-- being cut to 128 bytes. Different reads have different messages, in the order of their writes.
pub messages-InOrder : {s : System} → Reach s → InOrder Beginning s.received s.written
messages-InOrder {s} r = IsSound-InOrder s.dev s.written s.received (Reach-IsSound r)
