-- ===== src/Gold/Wakeups/NoLoss.antt =====
-- No wake-up of the gold device, LKM/mutex_sleep_ioctl_exercise/gold_device.c, is lost.
use linux_kernel_modules.Base.{
  update, ℕ, ◌≡◌, ◌≢◌, refl, sym, ap, ◌∙◌, true, false, ◌==◌, ◌⊎◌, inl, inr, Bool-cases, ==_iff,
  arith,
}
use linux_kernel_modules.Gold.Device.{GoldDev, Wake, nobody, readers, writers}
use linux_kernel_modules.Gold.Inv.{IsValid}
use linux_kernel_modules.Gold.Refine.{gold_ioctl-IsValid}
use linux_kernel_modules.Gold.Threads.{Request, reading, writing}
use linux_kernel_modules.Gold.Wakeups.{
  Pc, idle, sleeping, woken, ready, waking, System, queue, woken_by, Step, call, look, signalled,
  lock, interrupt, wake, command, Reach, here, next, Blocked, Pending,
}
use linux_kernel_modules.Gold.Wakeups.Announced.{
  locked-IsValid, after-Blocked, locked-Blocked, gold_ioctl-Blocked,
}

-- The ring is valid, and a process sleeps only while its condition does not hold or a wake-up of its
-- queue is on its way.
pub record IsLossless (s : System) : Type 0 where
  pub valid : IsValid s.dev
  pub sleepers : (i : ℕ) (r : Request) → s.pc i ≡ sleeping r → Blocked r s.dev ⊎ Pending (queue r) s

module _ (s : System) (i : ℕ) where
  pub at_self : (p : Pc) → update s.pc i p i ≡ p
  at_self p = ground arith

  -- A wake-up that another process owes is still owed.
  kept-Pending :
      (p : Pc) (w : Wake)
      → ((v : Wake) → s.pc i ≢ waking v)
      → Pending w s
      → (j : ℕ) × (update s.pc i p j ≡ waking w)
  kept-Pending p w free (j, e) = elim (Bool-cases (i == j)) [
    | inl same ↦ absurd (free w (ap s.pc ((==_iff i j).0 same) ∙ e))
    | inr apart ↦ (j, rw apart e)
  ]

  -- A process that owes no wake-up moves, and sleeps only if its condition does not hold.
  moved-IsLossless :
      (p : Pc)
      → ((q : Request) → p ≡ sleeping q → Blocked q s.dev)
      → ((v : Wake) → s.pc i ≢ waking v)
      → IsLossless s
      → IsLossless (record s { pc = update s.pc i p })
  moved-IsLossless p blocked free h = record { valid = h.valid; sleepers = asleep }
    where
      asleep :
          (k : ℕ) (q : Request)
          → update s.pc i p k ≡ sleeping q
          → Blocked q s.dev ⊎ Pending (queue q) (record s { pc = update s.pc i p })
      asleep k q e = elim (Bool-cases (i == k)) [
        | inl same ↦ inl (blocked q (rw same at e))
        | inr apart ↦ elim (h.sleepers k q (rw apart at e)) [
          | inl b ↦ inl b
          | inr w ↦ inr (kept-Pending p (queue q) free w)
        ]
      ]

  -- A call changes the device, and announces what it makes true for a sleeper.
  announced-IsLossless :
      (d : GoldDev) (w : Wake)
      → IsValid d
      → ((q : Request) → Blocked q s.dev → Blocked q d ⊎ (w ≡ queue q))
      → ((v : Wake) → s.pc i ≢ waking v)
      → IsLossless s
      → IsLossless (record s { dev = d; pc = update s.pc i (waking w) })
  announced-IsLossless d w v announced free h = record { valid = v; sleepers = asleep }
    where
      asleep :
          (k : ℕ) (q : Request)
          → update s.pc i (waking w) k ≡ sleeping q
          → Blocked q d ⊎ Pending (queue q) (record s { dev = d; pc = update s.pc i (waking w) })
      asleep k q e = elim (Bool-cases (i == k)) [
        | inl same ↦ let no : waking w ≡ sleeping q = rw same at e in cc
        | inr apart ↦ elim (h.sleepers k q (rw apart at e)) [
          | inl b ↦ elim (announced q b) [
            | inl b' ↦ inl b'
            | inr now ↦ inr (i, at_self (waking w) ∙ ap waking now)
          ]
          | inr p ↦ inr (kept-Pending (waking w) (queue q) free p)
        ]
      ]

-- Who sleeps behind a wake-up slept before it, on another queue.
woken_by-sleeping :
    (w : Wake) (p : Pc) (q : Request) → woken_by w p ≡ sleeping q → (p ≡ sleeping q) × (w ≢ queue q)
woken_by-sleeping readers (sleeping (reading nb count)) q e = cc
woken_by-sleeping writers (sleeping (writing nb src)) q e = cc
woken_by-sleeping nobody (sleeping r) (reading nb count) e = (e, λ k. cc)
woken_by-sleeping nobody (sleeping r) (writing nb src) e = (e, λ k. cc)
woken_by-sleeping readers (sleeping (writing nb src)) (reading nb' count') e = cc
woken_by-sleeping readers (sleeping (writing nb src)) (writing nb' src') e = (e, λ k. cc)
woken_by-sleeping writers (sleeping (reading nb count)) (reading nb' count') e = (e, λ k. cc)
woken_by-sleeping writers (sleeping (reading nb count)) (writing nb' src') e = cc
woken_by-sleeping w idle q e = cc
woken_by-sleeping w (woken r) q e = cc
woken_by-sleeping w (ready r) q e = cc
woken_by-sleeping w (waking v) q e = cc

woken_by-waking : (w v : Wake) → woken_by w (waking v) ≡ waking v
woken_by-waking nobody v = refl
woken_by-waking readers v = refl
woken_by-waking writers v = refl

woken-IsLossless :
    (s : System) (i : ℕ) (w : Wake)
    → s.pc i ≡ waking w
    → IsLossless s
    → IsLossless (record s { pc = update (λ j. woken_by w (s.pc j)) i idle })
woken-IsLossless s i w at h = record { valid = h.valid; sleepers = asleep }
  where
    asleep :
        (k : ℕ) (q : Request)
        → update (λ j. woken_by w (s.pc j)) i idle k ≡ sleeping q
        → Blocked q s.dev
          ⊎ Pending (queue q) (record s { pc = update (λ j. woken_by w (s.pc j)) i idle })
    asleep k q e = elim (Bool-cases (i == k)) [
      | inl same ↦ let no : idle ≡ sleeping q = rw same at e in cc
      | inr apart ↦
          let (before, elsewhere) = woken_by-sleeping w (s.pc k) q (rw apart at e) in
          elim (h.sleepers k q before) [
            | inl b ↦ inl b
            | inr (j, owes) ↦ elim (Bool-cases (i == j)) [
              | inl same ↦
                  let now : waking w ≡ waking (queue q) =
                    sym at ∙ ap s.pc ((==_iff i j).0 same) ∙ owes in
                  absurd (elsewhere (cc now))
              | inr distinct ↦ inr (j, rw (distinct, owes) (woken_by-waking w (queue q)))
            ]
          ]
    ]

Step-IsLossless : {s t : System} → Step s t → IsLossless s → IsLossless t
Step-IsLossless {s} (call i r signal e) h =
    moved-IsLossless s i _ (λ q. after-Blocked r q signal s.dev) (λ v k. cc) h
Step-IsLossless {s} (look i r signal e) h =
    moved-IsLossless s i _ (λ q. after-Blocked r q signal s.dev) (λ v k. cc) h
Step-IsLossless {s} (signalled i r e) h =
    moved-IsLossless s i _ (λ q. after-Blocked r q true s.dev) (λ v k. cc) h
Step-IsLossless {s} (interrupt i r e) h = moved-IsLossless s i idle (λ q k. cc) (λ v k. cc) h
Step-IsLossless {s} (lock i r e) h =
    announced-IsLossless s i _ _ (locked-IsValid r s.dev h.valid)
      (λ q. locked-Blocked r q s.dev h.valid) (λ v k. cc) h
Step-IsLossless {s} (wake i w e) h = woken-IsLossless s i w e h
Step-IsLossless {s} (command i fault cmd e) h =
    announced-IsLossless s i _ _ (gold_ioctl-IsValid false fault cmd s.dev h.valid)
      (λ q. gold_ioctl-Blocked fault cmd q s.dev) (λ v k. cc) h

-- In every state that any interleaving of calls, ioctls, signals and wake-ups reaches, of processes
-- whose memory never faults: a process sleeps in read only while the ring is empty, and in write only
-- while it is full, or else another one is about to wake its queue.
pub Reach-IsLossless : {s : System} → Reach s → IsLossless s
Reach-IsLossless here = record { valid = omega arith; sleepers = λ i r e. cc }
Reach-IsLossless (next r st) = Step-IsLossless st (Reach-IsLossless r)
