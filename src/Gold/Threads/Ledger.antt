-- ===== src/Gold/Threads/Ledger.antt =====
-- Where the bytes of a gold device, LKM/mutex_sleep_ioctl_exercise/gold_device.c, are and went, with any
-- number of processes on it.
use linux_kernel_modules.Base.{
  ℕ, ◌+◌, ◌∷◌, ◌-◌, ◌≡◌, refl, sym, ap, ◌∙◌, Bool, true, false, List, [], ◌++◌, take, length, arith,
  Ret, ok, fail, append-nil, append_assoc, length-take, length-append, take-min, min,
}
use linux_kernel_modules.Gold.Device.{
  GoldDev, Outcome, read_locked, write_locked, gold_ioctl, Cmd, reset, get_bufsize, other,
}
use linux_kernel_modules.Gold.Inv.{IsValid, contents, length-contents}
use linux_kernel_modules.Gold.Reading.{read_locked-ReadDone, signals, mode}
use linux_kernel_modules.Gold.Writing.{WriteReturn, write_locked-WriteDone}
use linux_kernel_modules.Delivery.{InOrder, nothing, InOrder-append, InOrder-whole}
use linux_kernel_modules.Gold.Refine.{gold_ioctl-IsValid}
use linux_kernel_modules.Gold.Threads.{
  Request, reading, writing, Pc, System, stored, counted, uncounted, locked, wipes, Step, call,
  look, lock, interrupt, command, Reach, here, next,
}

-- The ring is valid; it holds what writers have stored but for the first bytes, `gone`; of these,
-- readers have had some, in order, and all where there was no mishap.
pub record IsSound (s : System) : Type 0 where
  pub valid : IsValid s.dev
  pub gone : List ℕ
  pub ledger : s.accepted ≡ gone ++ contents s.dev
  pub order : InOrder ◌≡◌ s.received gone
  pub complete : s.mishaps ≡ 0 → s.received ≡ gone

-- The ring grew by the bytes that it took.
take_grown :
    (k : ℕ) (src : List ℕ) (d e : GoldDev)
    → contents e ≡ contents d ++ take k src
    → take (e.size - d.size) src ≡ take k src
take_grown k src d e h = rw grown (take-min k src)
  where
    grown : e.size - d.size ≡ min (length src) k
    grown = omega (
      arith,
      ap length h,
      length-append (contents d) (take k src),
      length-take k src,
      length-contents d,
      length-contents e,
    )

stored-taken :
    (nb : Bool) (fault : ℕ → Bool) (src : List ℕ) (d : GoldDev) (taken grown : ℕ) (o : Outcome)
    (ret : Ret)
    → WriteReturn (mode nb) (signals false false) fault src d taken o ret
    → take grown src ≡ take taken src
    → stored ret grown src ≡ take taken src
stored-taken nb fault src d taken grown o (ok n) h e = ap (λ k. take k src) h.0
stored-taken nb fault src d taken grown o (fail k) h e = e

counted-InOrder :
    (ret : Ret) (received gone out : List ℕ)
    → InOrder ◌≡◌ received gone
    → InOrder ◌≡◌ (received ++ counted ret out) (gone ++ out)
counted-InOrder (ok n) received gone out h = InOrder-whole received gone out h
counted-InOrder (fail e) received gone out h =
    rw (append-nil received) (InOrder-append received gone out h)

counted_complete :
    (ret : Ret) (received gone out : List ℕ) (mishaps : ℕ)
    → (mishaps ≡ 0 → received ≡ gone)
    → mishaps + uncounted ret out ≡ 0
    → received ++ counted ret out ≡ gone ++ out
counted_complete (ok n) received gone out mishaps h e = ap (λ l. l ++ out) (h (omega arith))
counted_complete (fail k) received gone [] mishaps h e = ap (λ l. l ++ []) (h (omega arith))
counted_complete (fail k) received gone (x ∷ out) mishaps h e = absurd (omega arith)

locked-IsSound :
    (fault : ℕ → Bool) (r : Request) (s : System) → IsSound s → IsSound (locked fault r s)
locked-IsSound fault (reading nb count) s h =
    let o = read_locked nb fault count s.dev in
    let done = read_locked-ReadDone nb (signals false false) fault count s.dev h.valid in
    record {
      valid = done.valid;
      gone = h.gone ++ o.out;
      ledger = rw (h.ledger, done.split) (sym (append_assoc h.gone _ _));
      order = counted-InOrder o.ret s.received h.gone o.out h.order;
      complete = counted_complete o.ret s.received h.gone o.out s.mishaps h.complete;
    }
locked-IsSound fault (writing nb src) s h =
    let o = write_locked nb fault src s.dev in
    let done = write_locked-WriteDone nb (signals false false) fault src s.dev h.valid in
    let taken : stored o.ret (o.dev.size - s.dev.size) src ≡ take done.taken src =
      stored-taken nb fault src s.dev done.taken _ o o.ret done.returns
        (take_grown done.taken src s.dev o.dev done.appended) in
    record {
      valid = done.valid;
      gone = h.gone;
      ledger =
          rw (taken, done.appended, h.ledger)
            (append_assoc h.gone (contents s.dev) (take done.taken src));
      order = h.order;
      complete = h.complete;
    }

command-IsSound :
    (fault : Bool) (cmd : Cmd) (s : System)
    → IsSound s
    → IsSound
        (record s { dev = (gold_ioctl false fault cmd s.dev).dev; mishaps = s.mishaps + wipes cmd })
unfolding gold_ioctl
command-IsSound fault reset s h = record {
  valid = gold_ioctl-IsValid false fault reset s.dev h.valid;
  gone = h.gone ++ contents s.dev;
  ledger = h.ledger ∙ sym (append-nil (h.gone ++ contents s.dev));
  order = InOrder-append s.received h.gone (contents s.dev) h.order;
  complete = λ e. absurd (omega arith);
}
command-IsSound true get_bufsize s h = record {
  valid = h.valid;
  gone = h.gone;
  ledger = h.ledger;
  order = h.order;
  complete = λ e. h.complete (omega arith);
}
command-IsSound false get_bufsize s h = record {
  valid = h.valid;
  gone = h.gone;
  ledger = h.ledger;
  order = h.order;
  complete = λ e. h.complete (omega arith);
}
command-IsSound fault other s h = record {
  valid = h.valid;
  gone = h.gone;
  ledger = h.ledger;
  order = h.order;
  complete = λ e. h.complete (omega arith);
}

same_histories : (s : System) (pc : ℕ → Pc) → IsSound s → IsSound (record s { pc = pc })
same_histories s pc h = record {
  valid = h.valid;
  gone = h.gone;
  ledger = h.ledger;
  order = h.order;
  complete = h.complete;
}

Step-IsSound : {s t : System} → Step s t → IsSound s → IsSound t
Step-IsSound {s} (call i r signal e) h = same_histories s _ h
Step-IsSound {s} (look i r signal e) h = same_histories s _ h
Step-IsSound {s} (lock i r fault e) h =
    same_histories (locked fault r s) _ (locked-IsSound fault r s h)
Step-IsSound {s} (interrupt i r e) h = same_histories s _ h
Step-IsSound {s} (command fault cmd) h = command-IsSound fault cmd s h

pub Reach-IsSound : {s : System} → Reach s → IsSound s
Reach-IsSound here = record {
  valid = omega arith;
  gone = [];
  ledger = refl;
  order = nothing;
  complete = λ e. refl;
}
Reach-IsSound (next r st) = Step-IsSound st (Reach-IsSound r)
