-- ===== src/CharDev/Sleepy/Wakeups.antt =====
-- The readers of LKM/chrdev_sleepy/read_write_sleepy.c that sleep on `my_queue`.
use linux_kernel_modules.Base.{ℕ, ◌≡◌, refl, Bool, true, false, ◌⊎◌, inl, inr}
use linux_kernel_modules.Waiting
use linux_kernel_modules.Waiting.{
  System, Steps, start, AllThrough, Steps-IsAwaited, all_get_through,
}
use linux_kernel_modules.CharDev.Sleepy.{Flag, after_wait, driver_write}

-- A write sets the flag and wakes the readers. A signal ends the wait of a reader, which clears the
-- flag all the same.
pub data Act (flag : Flag) : Flag → Bool → Type 0 where
  write : (count : ℕ) → Act flag (driver_write count flag).0 true
  interrupted : Act flag (after_wait flag).0 false

-- A reader behind its wait clears the flag.
pub data Take (flag : Flag) : Flag → Type 0 where
  read : Take flag (after_wait flag).0

pub acts_wake : (d e : Flag) (wakes : Bool) → Act d e wakes → e ≡ true → (d ≡ true) ⊎ (wakes ≡ true)
acts_wake d e wakes (write count) r = inr refl
acts_wake d e wakes interrupted r = cc

pub takes_keep : (d e : Flag) → Take d e → e ≡ true → d ≡ true
takes_keep d e read r = cc

abbrev pub sleepy_dev : Waiting.Device
sleepy_dev = record {
  State = Flag;
  ready = λ flag. flag;
  Act = Act;
  Take = Take;
  acts_wake = acts_wake;
  takes_keep = takes_keep;
}

-- Whatever reads, writes and signals there have been: where the flag is set, one wake-up that is under
-- way, or none, followed by tests of the flag alone, lets every reader that sleeps or is about to
-- test the flag through its wait, the flag staying as it is meanwhile.
pub readers_get_through_sleepy :
    (s : System sleepy_dev)
    → Steps sleepy_dev (start sleepy_dev false) s
    → s.state ≡ true
    → (t : System sleepy_dev) × AllThrough sleepy_dev s t
readers_get_through_sleepy s r set =
    all_get_through sleepy_dev s (Steps-IsAwaited sleepy_dev r (inr (inl refl))) set
