-- ===== src/Gold/Bytes/Kept.antt =====
-- The steps of the processes on LKM/mutex_sleep_ioctl_exercise/gold_device.c keep what
-- Gold.Bytes.Section says.
use mathlib.Core.Path.{subst}
use linux_kernel_modules.Base.{
  update, ℕ, suc, ◌+◌, ◌≡◌, refl, sym, ap, ◌∙◌, Bool, false, none, some, List, [], ◌∷◌, ◌++◌,
  get_or, arith, Ret, append-nil, append_assoc,
}
use linux_kernel_modules.Gold.Device.{
  Outcome, Wake, read_loop, buffer_empty, buffer_full, advance_tail, store_head, cleared,
}
use linux_kernel_modules.Gold.Inv.{
  contents, advance_tail-IsValid, store_head-IsValid, contents-advance_tail, contents-store_head,
}
use linux_kernel_modules.Gold.Threads.{Request, reading, writing}
use linux_kernel_modules.Gold.Bytes.{
  Pc, idle, reads, writes, System, refused, begun, promise, ending,
}
use linux_kernel_modules.Gold.Bytes.Rounds.{
  read_loop-moves, write_loop-stores, not_empty, not_full, read_locked-loop, write_locked-loop,
}
use linux_kernel_modules.Gold.Bytes.Section.{
  Inside, Promised, IsSound, everywhere, others_out, all_out, Promised-outside, ending-Inside,
}

-- A process that moves outside.
pub outside-IsSound :
    (i : ℕ) (p : Pc) (s : System)
    → ¬ Inside p
    → IsSound s
    → IsSound (record s { pc = update s.pc i p })
outside-IsSound i p s out h = record {
  valid = h.valid;
  ledger = h.ledger;
  alone =
      everywhere (λ j q. Inside q → s.holder ≡ some j) s.pc i p (λ x. absurd (out x))
        (λ j apart. h.alone j);
  kept = everywhere (λ j q. Promised s q) s.pc i p (Promised-outside s p out) (λ j apart. h.kept j);
}

lock-Promised :
    (i : ℕ) (r : Request) (fault : ℕ → Bool) (s : System)
    → refused r s.dev ≡ false
    → Promised
        (record s { holder = some i; promised = promise fault r s.dev; before = s.received })
        (begun fault r)
lock-Promised i (reading nonblocking count) fault s e =
    let same = read_locked-loop nonblocking fault count s.dev e in
    (
      ap (λ o. o.dev) same,
      ap (λ o. o.ret) same,
      ap (λ o. o.wake) same,
      ap (λ o. s.received ++ o.out) same,
    )
lock-Promised i (writing nonblocking src) fault s e =
    (write_locked-loop nonblocking fault src s.dev e, refl)

pub lock-IsSound :
    (i : ℕ) (r : Request) (fault : ℕ → Bool) (s : System)
    → s.holder ≡ none
    → refused r s.dev ≡ false
    → IsSound s
    → IsSound (record s {
      pc = update s.pc i (begun fault r);
      holder = some i;
      promised = promise fault r s.dev;
      before = s.received;
    })
lock-IsSound i r fault s off e h =
    let t : System = record s {
      holder = some i;
      promised = promise fault r s.dev;
      before = s.received;
    } in
    record {
      valid = h.valid;
      ledger = h.ledger;
      alone =
          everywhere (λ j q. Inside q → t.holder ≡ some j) s.pc i (begun fault r) (λ x. refl)
            (λ j apart x. absurd (all_out s j h off x));
      kept =
          everywhere (λ j q. Promised t q) s.pc i (begun fault r) (lock-Promised i r fault s e)
            (λ j apart. Promised-outside t (s.pc j) (all_out s j h off));
    }

pub move-IsSound :
    (i : ℕ) (fault : ℕ → Bool) (left copied : ℕ) (s : System)
    → s.pc i ≡ reads fault (suc left) copied
    → buffer_empty s.dev ≡ false
    → fault copied ≡ false
    → IsSound s
    → IsSound (record s {
      dev = advance_tail s.dev;
      pc = update s.pc i (reads fault left (copied + 1));
      received = s.received ++ (get_or s.dev.buffer s.dev.tail 0 ∷ []);
    })
move-IsSound i fault left copied s e more fine h =
    let b : List ℕ = get_or s.dev.buffer s.dev.tail 0 ∷ [] in
    let t : System = record s { dev = advance_tail s.dev; received = s.received ++ b } in
    let ne = not_empty s.dev more in
    let inside : Inside (s.pc i) = subst Inside (sym e) tt in
    let step = read_loop-moves fault left copied s.dev more fine in
    let k : Promised s (reads fault (suc left) copied) = subst (Promised s) e (h.kept i) in
    let o : Outcome = read_loop fault left (copied + 1) (advance_tail s.dev) in
    record {
      valid = advance_tail-IsValid s.dev h.valid ne;
      ledger =
          h.ledger
          ∙ ap (λ l. s.received ++ l) (contents-advance_tail s.dev h.valid ne)
          ∙ sym (append_assoc s.received b (contents (advance_tail s.dev)));
      alone =
          everywhere (λ j q. Inside q → s.holder ≡ some j) s.pc i _ (λ x. h.alone i inside)
            (λ j apart. h.alone j);
      kept =
          everywhere (λ j q. Promised t q) s.pc i _
            (
              k.0 ∙ ap (λ x. x.dev) step,
              k.1 ∙ ap (λ x. x.ret) step,
              k.2 ∙ ap (λ x. x.wake) step,
              k.3 ∙ ap (λ x. s.received ++ x.out) step ∙ sym (append_assoc s.received b o.out),
            )
            (λ j apart. Promised-outside t (s.pc j) (others_out s i j h inside apart));
    }

pub store-IsSound :
    (i : ℕ) (fault : ℕ → Bool) (c : ℕ) (src : List ℕ) (copied : ℕ) (s : System)
    → s.pc i ≡ writes fault (c ∷ src) copied
    → buffer_full s.dev ≡ false
    → fault copied ≡ false
    → IsSound s
    → IsSound (record s {
      dev = store_head c s.dev;
      pc = update s.pc i (writes fault src (copied + 1));
      accepted = s.accepted ++ (c ∷ []);
    })
store-IsSound i fault c src copied s e room fine h =
    let t : System = record s { dev = store_head c s.dev; accepted = s.accepted ++ (c ∷ []) } in
    let nf = not_full s.dev room in
    let inside : Inside (s.pc i) = subst Inside (sym e) tt in
    let k : Promised s (writes fault (c ∷ src) copied) = subst (Promised s) e (h.kept i) in
    record {
      valid = store_head-IsValid s.dev c h.valid nf;
      ledger =
          ap (λ l. l ++ (c ∷ [])) h.ledger
          ∙ append_assoc s.received (contents s.dev) (c ∷ [])
          ∙ ap (λ l. s.received ++ l) (sym (contents-store_head s.dev c h.valid nf));
      alone =
          everywhere (λ j q. Inside q → s.holder ≡ some j) s.pc i _ (λ x. h.alone i inside)
            (λ j apart. h.alone j);
      kept =
          everywhere (λ j q. Promised t q) s.pc i _
            (k.0 ∙ write_loop-stores fault c src copied s.dev room fine, k.1)
            (λ j apart. Promised-outside t (s.pc j) (others_out s i j h inside apart));
    }

pub unlock-IsSound :
    (i : ℕ) (x : Ret × Wake) (s : System)
    → ending (s.pc i) s.dev ≡ some x
    → IsSound s
    → IsSound (record s { pc = update s.pc i idle; holder = none })
unlock-IsSound i x s e h =
    let inside = ending-Inside (s.pc i) s.dev x e in
    let t : System = record s { holder = none } in
    record {
      valid = h.valid;
      ledger = h.ledger;
      alone =
          everywhere (λ j q. Inside q → t.holder ≡ some j) s.pc i idle (λ y. absurd y)
            (λ j apart y. absurd (others_out s i j h inside apart y));
      kept =
          everywhere (λ j q. Promised t q) s.pc i idle tt
            (λ j apart. Promised-outside t (s.pc j) (others_out s i j h inside apart));
    }

pub reset-IsSound :
    (s : System)
    → s.holder ≡ none
    → IsSound s
    → IsSound (record s { dev = cleared s.dev; accepted = s.received })
reset-IsSound s off h =
    let t : System = record s { dev = cleared s.dev; accepted = s.received } in
    record {
      valid = let v = h.valid in omega (arith, v.storage);
      ledger = sym (append-nil s.received);
      alone = h.alone;
      kept = λ j. Promised-outside t (s.pc j) (all_out s j h off);
    }
