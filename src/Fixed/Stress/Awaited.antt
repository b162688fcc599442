-- ===== src/Fixed/Stress/Awaited.antt =====
-- The wake-ups of LKM/mutex_sleep_ioctl_exercise/stress_test.c on the fixed device.
use linux_kernel_modules.Base.{
  ℕ, ◌-◌, ◌<◌, ◌≡◌, refl, ◌∙◌, Bool, true, false, List, [], ◌∷◌, ◌++◌, map, ◌⊎◌, inl, inr, arith,
  pos,
}
use linux_kernel_modules.Fixed.Device.{
  Device, read_enter, read_locked, my_write, my_ioctl, set_blocking,
}
use linux_kernel_modules.Fixed.Stress.{max_msg}
use linux_kernel_modules.Fixed.Stress.Program.{
  Writer, Phase, idle, asleep, woken, through, Reader, System, entered, looked, rouse, rouse_phase,
  Step, write, wake, begin, look, take, mode, wipe, start, Run, here, next,
}
use linux_kernel_modules.Fixed.Stress.Measure.{total, total-at, replaced, if_so}

abbrev pub sleeping : Phase → ℕ
sleeping asleep = 1
sleeping idle = 0
sleeping woken = 0
sleeping (through blocking) = 0

abbrev pub sleeper : Reader → ℕ
sleeper r = sleeping r.phase

abbrev pub waker : Writer → ℕ
waker w = if_so w.waking 1

-- Nobody sleeps while a message waits, unless a wake-up is under way.
abbrev pub IsAwaited : System → Type 0
IsAwaited s = (s.dev.data_size ≡ 0) ⊎ (total sleeper s.readers ≡ 0) ⊎ (0 < total waker s.writers)

awake : (p : Phase) → sleeping (rouse_phase p) ≡ 0
awake idle = refl
awake asleep = refl
awake woken = refl
awake (through blocking) = refl

total-roused : (rs : List Reader) → total sleeper (map rouse rs) ≡ 0
unfolding total
total-roused [] = refl
total-roused (r ∷ rs) = omega (arith, awake r.phase, total-roused rs)

sleeping-entered : (d : Device) → (sleeping (entered (read_enter false d)) ≡ 0) ⊎ (d.data_size ≡ 0)
unfolding read_enter
sleeping-entered d = ground arith

sleeping-looked : (d : Device) → (sleeping (looked d) ≡ 0) ⊎ (d.data_size ≡ 0)
sleeping-looked d = ground arith

taken-empty :
    (blocking : Bool) (d : Device) → (read_locked blocking false max_msg d).dev.data_size ≡ 0
unfolding read_locked
taken-empty blocking d = ground arith

mode-keeps :
    (m : ℕ) (d : Device) → (my_ioctl false false (set_blocking (pos m)) d).0.data_size ≡ d.data_size
unfolding my_ioctl
mode-keeps m d = ground arith

-- A reader that falls asleep does so on an empty device.
sleeper-IsAwaited :
    (s : System) (before after : List Reader) (r r' : Reader)
    → s.readers ≡ before ++ r ∷ after
    → (sleeper r' ≡ 0) ⊎ (s.dev.data_size ≡ 0)
    → IsAwaited s
    → IsAwaited (record s { readers = before ++ r' ∷ after })
sleeper-IsAwaited s before after r r' e (inr empty) h = inl empty
sleeper-IsAwaited s before after r r' e (inl up) (inl empty) = inl empty
sleeper-IsAwaited s before after r r' e (inl up) (inr (inr w)) = inr (inr w)
sleeper-IsAwaited s before after r r' e (inl up) (inr (inl none_asleep)) =
    inr (inl (omega (arith, replaced sleeper before after r r' s.readers e)))

Step-IsAwaited : {s t : System} → Step s t → IsAwaited s → IsAwaited t
unfolding my_write my_ioctl
Step-IsAwaited {s} (write before after w e n l) h =
    let w' : Writer = record w { rounds = w.rounds - 1; waking = true } in
    inr (inr (omega (arith, total-at waker before after w')))
Step-IsAwaited {s} (wake before after w e p) h = inr (inl (total-roused s.readers))
Step-IsAwaited {s} (begin before after r e p l) h =
    sleeper-IsAwaited s before after r _ e (sleeping-entered s.dev) h
Step-IsAwaited {s} (look before after r e p) h =
    sleeper-IsAwaited s before after r _ e (sleeping-looked s.dev) h
Step-IsAwaited {s} (take before after r b e p) h = inl (taken-empty b s.dev)
Step-IsAwaited {s} (mode m also lt n l) h = elim h [
  | inl empty ↦ inl (mode-keeps m s.dev ∙ empty)
  | inr rest ↦ inr rest
]
Step-IsAwaited {s} (wipe y) h = inl refl

pub Run-IsAwaited : {n : ℕ} {s : System} → Run start n s → IsAwaited s
Run-IsAwaited here = inl refl
Run-IsAwaited (next run st) = Step-IsAwaited st (Run-IsAwaited run)
