-- ===== src/Fixed/Wakeups.antt =====
-- The readers of LKM/mutex_sleep_ioctl_exercise/fixed_device.c that sleep on `read_queue` in blocking
-- mode, with everything that others may do meanwhile.
use linux_kernel_modules.Base.{
  ℕ, ◌≤◌, ◌≡◌, ◌≢◌, refl, Bool, true, false, ltb, ◌⊎◌, inl, inr, arith, List, length, min,
}
use linux_kernel_modules.Waiting
use linux_kernel_modules.Waiting.{
  System, Steps, start, AllThrough, Steps-IsAwaited, all_get_through,
}
use linux_kernel_modules.Fixed.Device.{
  Device, Cmd, buf_size, fresh, reset, other, set_blocking, read_locked, my_write, my_ioctl,
}

-- Calls that do not wait: a read in non-blocking mode, a write, which wakes the readers where it
-- says so, and an ioctl.
pub data Act (d : Device) : Device → Bool → Type 0 where
  read : (fault : Bool) (count : ℕ) → Act d (read_locked false fault count d).dev false
  write :
      (signal : Bool) (missing : ℕ) (src : List ℕ)
      → missing ≤ min (length src) buf_size
      → Act d (my_write signal missing src d).dev (my_write signal missing src d).wake
  ioctl : (fault signal : Bool) (cmd : Cmd) → Act d (my_ioctl fault signal cmd d).0 false

-- A reader behind its wait takes the lock, or a signal ends it.
pub data Take (d : Device) : Device → Type 0 where
  read : (fault : Bool) (count : ℕ) → Take d (read_locked true fault count d).dev
  interrupted : Take d d

-- The condition of the wait.
abbrev pub ready : Device → Bool
ready d = ltb 0 d.data_size

pub acts_wake :
    (d e : Device) (wakes : Bool)
    → Act d e wakes
    → ready e ≡ true
    → (ready d ≡ true) ⊎ (wakes ≡ true)
unfolding read_locked my_write my_ioctl
acts_wake d e wakes (read fault count) r = ground arith
acts_wake d e wakes (write signal missing src h) r = ground arith
acts_wake d e wakes (ioctl fault signal reset) r = ground arith
acts_wake d e wakes (ioctl fault signal (set_blocking val)) r = ground arith
acts_wake d e wakes (ioctl fault signal other) r = inl r

pub takes_keep : (d e : Device) → Take d e → ready e ≡ true → ready d ≡ true
unfolding read_locked
takes_keep d e (read fault count) r = ground arith
takes_keep d e interrupted r = r

abbrev pub fixed_dev : Waiting.Device
fixed_dev = record {
  State = Device;
  ready = ready;
  Act = Act;
  Take = Take;
  acts_wake = acts_wake;
  takes_keep = takes_keep;
}

-- Whatever readers, writers and ioctls have done before, with any signals and faults: where a message
-- waits, one wake-up that is under way, or none, followed by as many tests of the condition as
-- readers sleep or are about to test it, each test by one of them, lets all of these through their
-- wait; no call begins, no signal comes and the device stays as it is in all these steps.
pub readers_get_through :
    (s : System fixed_dev)
    → Steps fixed_dev (start fixed_dev fresh) s
    → s.state.data_size ≢ 0
    → (t : System fixed_dev) × AllThrough fixed_dev s t
readers_get_through s r ne =
    all_get_through fixed_dev s (Steps-IsAwaited fixed_dev r (inr (inl refl))) (ground arith)
