-- ===== src/CharDev/Message/Exclusive.antt =====
-- Many processes run rwtodev.c of LKM/chrdev_mutex on one device: LKM/chrdev_mutex/read_write_mutex.c
-- keeps its mutex from open to close.
use linux_kernel_modules.Base.{
  ℕ, ◌≤◌, ◌≡◌, ◌==◌, ==_iff, sym, ap, ◌∙◌, Bool, true, false, some, List, length, Bool-cases, inl,
  inr, ok, arith, update, stands,
}
use linux_kernel_modules.CharDev.Message.{
  Device, fresh, mutex_read, mutex_write, driver_open, driver_close,
}
use linux_kernel_modules.CharDev.Message.Client.{buffer_length, mutex_read_back}

-- Where a process stands: outside, behind `open`, behind `write` of a line, and behind `read`, with
-- what `receive` holds.
pub data Pc : Type 0 where
  outside opened : Pc
  wrote : (line : List ℕ) → Pc
  received : (line receive : List ℕ) → Pc

pub record System : Type 0 where
  pub dev : Device
  pub taken : Bool
  pub pc : ℕ → Pc

pub data Step (s : System) : System → Type 0 where
  open_device :
      (i : ℕ) (taken : Bool)
      → s.pc i ≡ outside
      → driver_open false s.taken ≡ some (taken, ok 0)
      → Step s (record s { taken = taken; pc = update s.pc i opened })
  write_line :
      (i : ℕ) (line : List ℕ)
      → s.pc i ≡ opened
      → length line ≤ 255
      → Step s (record s { dev = (mutex_write 0 line s.dev).0; pc = update s.pc i (wrote line) })
  read_line :
      (i : ℕ) (line : List ℕ)
      → s.pc i ≡ wrote line
      → Step s
          (record s { pc = update s.pc i (received line (mutex_read 0 buffer_length s.dev).0) })
  close_device :
      (i : ℕ) (line receive : List ℕ)
      → s.pc i ≡ received line receive
      → Step s (record s { taken = (driver_close s.taken).0; pc = update s.pc i outside })

abbrev pub start : System
start = record { dev = fresh; taken = false; pc = λ i. outside }

pub data Reach : System → Type 0 where
  here : Reach start
  next : {s t : System} → Reach s → Step s t → Reach t

abbrev pub is_inside : Pc → Bool
is_inside outside = false
is_inside opened = true
is_inside (wrote line) = true
is_inside (received line receive) = true

-- At most one process is inside, and then the mutex is taken; a line written is the one a read gets.
record IsExclusive (s : System) : Type 0 where
  alone : (i j : ℕ) → is_inside (s.pc i) ≡ true → is_inside (s.pc j) ≡ true → i ≡ j
  locked : (i : ℕ) → is_inside (s.pc i) ≡ true → s.taken ≡ true
  echo : (i : ℕ) (line : List ℕ) → s.pc i ≡ wrote line → (mutex_read 0 buffer_length s.dev).0 ≡ line
  own : (i : ℕ) (line receive : List ℕ) → s.pc i ≡ received line receive → receive ≡ line

free_mutex :
    (taken result : Bool)
    → driver_open false taken ≡ some (result, ok 0)
    → (taken ≡ false) × (result ≡ true)
unfolding driver_open
free_mutex taken result e = ground arith

-- `i` moves, and nobody else is inside.
module _ (pc : ℕ → Pc) (i : ℕ) (p : Pc) (only : (k : ℕ) → is_inside (pc k) ≡ true → k ≡ i) where
  still_inside : (k : ℕ) → is_inside (update pc i p k) ≡ true → k ≡ i
  still_inside k h = elim (Bool-cases (i == k)) [
    | inl e ↦ sym ((==_iff i k).0 e)
    | inr apart ↦ only k (rw apart at h)
  ]

  moved :
      (k j : ℕ) → is_inside (update pc i p k) ≡ true → is_inside (update pc i p j) ≡ true → k ≡ j
  moved k j hk hj = still_inside k hk ∙ sym (still_inside j hj)

Step-IsExclusive : {s t : System} → IsExclusive s → Step s t → IsExclusive t
unfolding driver_close
Step-IsExclusive {s} x (open_device i taken o e) =
    let (was, now) = free_mutex s.taken taken e in
    record {
      alone = moved s.pc i opened (λ k h. let no : true ≡ false = sym (x.locked k h) ∙ was in cc);
      locked = λ k h. now;
      echo = λ k line q. elim (stands s.pc i opened k (wrote line) q) [
        | inl e ↦ cc
        | inr e ↦ x.echo k line e
      ];
      own = λ k line receive q. elim (stands s.pc i opened k (received line receive) q) [
        | inl e ↦ cc
        | inr e ↦ x.own k line receive e
      ];
    }
Step-IsExclusive {s} x (write_line i line o fits) =
    let only : (k : ℕ) → is_inside (s.pc k) ≡ true → k ≡ i =
      λ k h. x.alone k i h (ap is_inside o) in
    record {
      alone = moved s.pc i (wrote line) only;
      locked = λ k h. x.locked i (ap is_inside o);
      echo = λ k l q. elim (stands s.pc i (wrote line) k (wrote l) q) [
        | inl e ↦ let same : line ≡ l = cc in mutex_read_back line s.dev fits ∙ same
        | inr e ↦
            let no : opened ≡ wrote l = sym o ∙ ap s.pc (sym (only k (ap is_inside e))) ∙ e in cc
      ];
      own = λ k l receive q. elim (stands s.pc i (wrote line) k (received l receive) q) [
        | inl e ↦ cc
        | inr e ↦ x.own k l receive e
      ];
    }
Step-IsExclusive {s} x (read_line i line o) =
    let out : List ℕ = (mutex_read 0 buffer_length s.dev).0 in
    record {
      alone = moved s.pc i (received line out) (λ k h. x.alone k i h (ap is_inside o));
      locked = λ k h. x.locked i (ap is_inside o);
      echo = λ k l q. elim (stands s.pc i (received line out) k (wrote l) q) [
        | inl e ↦ cc
        | inr e ↦ x.echo k l e
      ];
      own = λ k l receive q. elim (stands s.pc i (received line out) k (received l receive) q) [
        | inl e ↦ let echoed : out ≡ line = x.echo i line o in cc
        | inr e ↦ x.own k l receive e
      ];
    }
Step-IsExclusive {s} x (close_device i line receive o) =
    let only : (k : ℕ) → is_inside (s.pc k) ≡ true → k ≡ i =
      λ k h. x.alone k i h (ap is_inside o) in
    record {
      alone = moved s.pc i outside only;
      locked = λ k h. elim (Bool-cases (i == k)) [
        | inl same ↦ let no : false ≡ true = rw same at h in cc
        | inr apart ↦ let same = (==_iff i k).1 (sym (only k (rw apart at h))) in cc
      ];
      echo =
          λ k l q. elim (stands s.pc i outside k (wrote l) q) [ inl e ↦ cc | inr e ↦ x.echo k l e ];
      own = λ k l got q. elim (stands s.pc i outside k (received l got) q) [
        | inl e ↦ cc
        | inr e ↦ x.own k l got e
      ];
    }

Reach-IsExclusive : {s : System} → Reach s → IsExclusive s
Reach-IsExclusive here = record {
  alone = λ i j h k. cc;
  locked = λ i h. cc;
  echo = λ i line q. cc;
  own = λ i line receive q. cc;
}
Reach-IsExclusive (next r st) = Step-IsExclusive (Reach-IsExclusive r) st

-- However many processes run the program and however their calls interleave, without signals and
-- faults and with lines of up to 255 bytes, as `strlen` counts them in `stringToSend`: when a process
-- has received something, it is the line that it wrote itself, and no other process is between open
-- and close.
pub own_line :
    {s : System} (i j : ℕ) (line receive : List ℕ)
    → Reach s
    → s.pc i ≡ received line receive
    → is_inside (s.pc j) ≡ true
    → (receive ≡ line) × (j ≡ i)
own_line i j line receive r at_i inside =
    let x = Reach-IsExclusive r in
    (x.own i line receive at_i, x.alone j i inside (ap is_inside at_i))
