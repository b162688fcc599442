-- ===== src/Fixed/Runs.antt =====
-- All that processes can do to the fixed device, one critical section at a time.
use linux_kernel_modules.Base.{ℕ, ◌≤◌, Bool, List, length, min, arith, refl}
use linux_kernel_modules.Fixed.Device.{
  Device, fresh, buf_size, read_locked, my_write, my_ioctl, Cmd,
}
use linux_kernel_modules.Fixed.Laws.{
  IsValid, read_locked-IsValid, my_write-IsValid, my_ioctl-IsValid,
}

pub data Step (d : Device) : Device → Type 0 where
  read : (blocking fault : Bool) (count : ℕ) → Step d (read_locked blocking fault count d).dev
  write :
      (signal : Bool) (missing : ℕ) (src : List ℕ)
      → missing ≤ min (length src) buf_size
      → Step d (my_write signal missing src d).dev
  ioctl : (fault signal : Bool) (cmd : Cmd) → Step d (my_ioctl fault signal cmd d).0

pub data Reach : Device → Type 0 where
  start : Reach fresh
  next : {d e : Device} → Reach d → Step d e → Reach e

Step-IsValid : {d e : Device} → Step d e → IsValid d → IsValid e
Step-IsValid {d} (read blocking fault count) v = read_locked-IsValid blocking fault count d v
Step-IsValid {d} (write signal missing src h) v = my_write-IsValid signal missing src d h v
Step-IsValid {d} (ioctl fault signal cmd) v = my_ioctl-IsValid fault signal cmd d v

-- In every state that any interleaving of reads, writes and ioctls reaches, with any signals and
-- faults, the buffer has its 128 bytes, the message fits in it, and the mode is 0 or 1.
pub Reach-IsValid : {d : Device} → Reach d → IsValid d
Reach-IsValid start = record { storage = refl; size_in = omega arith; mode_in = refl }
Reach-IsValid (next r s) = Step-IsValid s (Reach-IsValid r)
