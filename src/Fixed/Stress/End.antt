-- ===== src/Fixed/Stress/End.antt =====
-- How the stress test of LKM/mutex_sleep_ioctl_exercise/stress_test.c ends on the fixed device.
use linux_kernel_modules.Base.{
  ℕ, zero, suc, ◌≤◌, ◌<◌, ◌≡◌, refl, ap, Bool, true, false, List, [], ◌∷◌, ◌++◌, ◌⊎◌, inl, inr,
  arith, Bool-cases,
}
use linux_kernel_modules.Fixed.Stress.Program.{
  Writer, Phase, idle, asleep, woken, through, Reader, System, Step, write, wake, begin, look, take,
  mode, wipe, start, Run,
}
use linux_kernel_modules.Fixed.Stress.Measure.{total, if_so, Run-weight, weight-start}
use linux_kernel_modules.Fixed.Stress.Awaited.{sleeper, waker, IsAwaited, Run-IsAwaited}

-- A list has an entry of one kind, or all are of the other.
abbrev pub All {ℓ κ} : {A : Type ℓ} → (A → Type κ) → List A → Type κ
All Q [] = Unit
All Q (x ∷ xs) = Q x × All Q xs

abbrev Found {ℓ κ} : {A : Type ℓ} → (A → Type κ) → List A → Type (ℓ ⊔ κ)
Found {A} P xs = (before : List A) × (x : A) × (after : List A) × (xs ≡ before ++ x ∷ after) × P x

find {ℓ κ ι} :
    {A : Type ℓ} {P : A → Type κ} {Q : A → Type ι}
    → ((x : A) → P x ⊎ Q x)
    → (xs : List A) → Found P xs ⊎ All Q xs
find test [] = inr tt
find test (x ∷ xs) = elim (test x) [
  | inl p ↦ inl ([], x, xs, refl, p)
  | inr q ↦ elim (find test xs) [
    | inl (before, y, after, e, p) ↦ inl (x ∷ before, y, after, ap (λ l. x ∷ l) e, p)
    | inr all ↦ inr (q, all)
  ]
]

abbrev WriterCan : Writer → Type 0
WriterCan w = (w.waking ≡ true) ⊎ (w.waking ≡ false) × (0 < w.rounds)

abbrev pub HasWritten : Writer → Type 0
HasWritten w = (w.rounds ≡ 0) × (w.waking ≡ false)

abbrev ReaderCan : Reader → Type 0
ReaderCan r =
    (r.phase ≡ idle) × (0 < r.rounds)
    ⊎ (r.phase ≡ woken)
    ⊎ (blocking : Bool) × (r.phase ≡ through blocking)

abbrev pub HasReadOrSleeps : Reader → Type 0
HasReadOrSleeps r = (r.phase ≡ idle) × (r.rounds ≡ 0) ⊎ (r.phase ≡ asleep)

none_or_some : (n : ℕ) → (n ≡ 0) ⊎ (0 < n)
none_or_some zero = inl refl
none_or_some (suc n) = inr (omega arith)

writer_cases : (w : Writer) → WriterCan w ⊎ HasWritten w
writer_cases w = elim (Bool-cases w.waking) [
  | inl on ↦ inl (inl on)
  | inr off ↦ elim (none_or_some w.rounds) [
    | inl over ↦ inr (over, off)
    | inr more ↦ inl (inr (off, more))
  ]
]

phase_cases :
    (p : Phase)
    → (p ≡ idle) ⊎ (p ≡ asleep) ⊎ (p ≡ woken) ⊎ (blocking : Bool) × (p ≡ through blocking)
phase_cases idle = inl refl
phase_cases asleep = inr (inl refl)
phase_cases woken = inr (inr (inl refl))
phase_cases (through blocking) = inr (inr (inr (blocking, refl)))

reader_cases : (r : Reader) → ReaderCan r ⊎ HasReadOrSleeps r
reader_cases r = elim (phase_cases r.phase) [
  | inl free ↦ elim (none_or_some r.rounds) [
    | inl over ↦ inr (inl (free, over))
    | inr more ↦ inl (inl (free, more))
  ]
  | inr (inl sleeps) ↦ inr (inr sleeps)
  | inr (inr (inl up)) ↦ inl (inr (inl up))
  | inr (inr (inr behind)) ↦ inl (inr (inr behind))
]

-- Some thread can make a step.
abbrev pub CanGoOn : System → Type 0
CanGoOn s = (t : System) × Step s t

writer_steps : (s : System) → Found WriterCan s.writers → CanGoOn s
writer_steps s (before, w, after, e, inl on) = (_, wake before after w e on)
writer_steps s (before, w, after, e, inr (off, more)) = (_, write before after w e off more)

reader_steps : (s : System) → Found ReaderCan s.readers → CanGoOn s
reader_steps s (before, r, after, e, inl (free, more)) = (_, begin before after r e free more)
reader_steps s (before, r, after, e, inr (inl up)) = (_, look before after r e up)
reader_steps s (before, r, after, e, inr (inr (b, behind))) = (_, take before after r b e behind)

control_cases : (s : System) → CanGoOn s ⊎ (s.control.rounds ≡ 0) × (s.control.resetting ≡ false)
control_cases s = elim (Bool-cases s.control.resetting) [
  | inl on ↦ inl (_, wipe on)
  | inr off ↦ elim (none_or_some s.control.rounds) [
    | inl over ↦ inr (over, off)
    | inr more ↦ inl (_, mode 0 false (omega arith) off more)
  ]
]

total-HasWritten : (ws : List Writer) → All HasWritten ws → total waker ws ≡ 0
unfolding total
total-HasWritten [] all = refl
total-HasWritten (w ∷ ws) ((over, off), all) =
    omega (arith, ap (λ b. if_so b 1) off, total-HasWritten ws all)

-- The writers and the ioctl thread are done, and each reader is done or asleep; where one is asleep,
-- no message waits.
pub record HasEnded (s : System) : Type 0 where
  pub writers : All HasWritten s.writers
  pub readers : All HasReadOrSleeps s.readers
  pub control : (s.control.rounds ≡ 0) × (s.control.resetting ≡ false)
  pub starved : (total sleeper s.readers ≡ 0) ⊎ (s.dev.data_size ≡ 0)

ends_or_goes_on : (s : System) → IsAwaited s → CanGoOn s ⊎ HasEnded s
ends_or_goes_on s h = elim (find writer_cases s.writers) [
  | inl w ↦ inl (writer_steps s w)
  | inr written ↦ elim (find reader_cases s.readers) [
    | inl r ↦ inl (reader_steps s r)
    | inr read ↦ elim (control_cases s) [
      | inl next_one ↦ inl next_one
      | inr over ↦ inr (record {
        writers = written;
        readers = read;
        control = over;
        starved = elim h [
          | inl empty ↦ inr empty
          | inr (inl up) ↦ inl up
          | inr (inr w) ↦ absurd (omega (arith, total-HasWritten s.writers written))
        ];
      })
    ]
  ]
]

-- However its threads interleave, the stress test makes no more than 420 steps. Where none of them
-- can go on, the writers and the ioctl thread are done, each reader is done or asleep, and where one
-- is asleep no message waits.
pub stress_ends : {n : ℕ} {s : System} → Run start n s → (n ≤ 420) × (CanGoOn s ⊎ HasEnded s)
stress_ends {n} {s} run =
    (omega (arith, (Run-weight run).1, weight-start), ends_or_goes_on s (Run-IsAwaited run))
