-- ===== src/Gold/Bytes/Section.antt =====
-- What holds of the processes on LKM/mutex_sleep_ioctl_exercise/gold_device.c while one of
-- them is between its lock and its unlock.
use mathlib.Core.Path.{subst}
use linux_kernel_modules.Base.{
  update, ℕ, ◌≡◌, false, none, some, ◌++◌, ◌==◌, arith, Ret, Bool-cases, inl, inr, ==_iff,
}
use linux_kernel_modules.Gold.Device.{GoldDev, Wake, read_loop, write_loop, Enter, go, sleep, leave}
use linux_kernel_modules.Gold.Inv.{IsValid, contents}
use linux_kernel_modules.Gold.Threads.{Request}
use linux_kernel_modules.Gold.Bytes.{
  Pc, idle, sleeping, ready, reads, writes, System, after, ending,
}

-- Behind the mutex.
abbrev pub Inside : Pc → Type 0
Inside idle = ⊥
Inside (sleeping r) = ⊥
Inside (ready r) = ⊥
Inside (reads fault left copied) = Unit
Inside (writes fault src copied) = Unit

-- What is left of a section leads to what was promised when it began.
abbrev pub Promised : System → Pc → Type 0
Promised s idle = Unit
Promised s (sleeping r) = Unit
Promised s (ready r) = Unit
Promised s (reads fault left copied) =
    let o = read_loop fault left copied s.dev in
    (s.promised.dev ≡ o.dev)
    × (s.promised.ret ≡ o.ret)
    × (s.promised.wake ≡ o.wake)
    × (s.before ++ s.promised.out ≡ s.received ++ o.out)
Promised s (writes fault src copied) =
    (s.promised ≡ write_loop fault src copied s.dev) × (s.received ≡ s.before)

pub record IsSound (s : System) : Type 0 where
  pub valid : IsValid s.dev
  pub ledger : s.accepted ≡ s.received ++ contents s.dev
  pub alone : (j : ℕ) → Inside (s.pc j) → s.holder ≡ some j
  pub kept : (j : ℕ) → Promised s (s.pc j)

-- A table in which `i` has moved to `p`.
pub everywhere :
    (P : ℕ → Pc → Type 0) (pc : ℕ → Pc) (i : ℕ) (p : Pc)
    → P i p
    → ((j : ℕ) → (i == j) ≡ false → P j (pc j))
    → (j : ℕ) → P j (update pc i p j)
everywhere P pc i p now others j = elim (Bool-cases (i == j)) [
  | inl same ↦ rw same (subst (λ k. P k p) ((==_iff i j).0 same) now)
  | inr apart ↦ rw apart (others j apart)
]

pub outside-after : (r : Request) (e : Enter) → ¬ Inside (after r e)
outside-after r go = λ h. h
outside-after r sleep = λ h. h
outside-after r (leave ret) = λ h. h

-- Nobody else is inside.
pub others_out :
    (s : System) (i j : ℕ) → IsSound s → Inside (s.pc i) → (i == j) ≡ false → ¬ Inside (s.pc j)
others_out s i j h inside apart there = ground (arith, h.alone i inside, h.alone j there)

pub all_out : (s : System) (j : ℕ) → IsSound s → s.holder ≡ none → ¬ Inside (s.pc j)
all_out s j h off there = cc (off, h.alone j there)

-- What holds of a process outside holds whatever becomes of the device.
pub Promised-outside : (s : System) (p : Pc) → ¬ Inside p → Promised s p
Promised-outside s idle h = tt
Promised-outside s (sleeping r) h = tt
Promised-outside s (ready r) h = tt
Promised-outside s (reads fault left copied) h = absurd (h tt)
Promised-outside s (writes fault src copied) h = absurd (h tt)

pub ending-Inside : (p : Pc) (d : GoldDev) (x : Ret × Wake) → ending p d ≡ some x → Inside p
unfolding ending
ending-Inside idle d x e = absurd (cc)
ending-Inside (sleeping r) d x e = absurd (cc)
ending-Inside (ready r) d x e = absurd (cc)
ending-Inside (reads fault left copied) d x e = tt
ending-Inside (writes fault src copied) d x e = tt
