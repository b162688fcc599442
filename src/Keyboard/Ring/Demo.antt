-- ===== src/Keyboard/Ring/Demo.antt =====
-- LKM/Keyboard_monitor/kbdmon_chrdev_demo.c against the device that it reads: keys are typed, and the
-- program prints what the ring gives it.
use linux_kernel_modules.Base.{
  ℕ, ◌^◌, ◌%◌, ◌<◌, ◌≡◌, refl, ap, ap₂, ◌∙◌, Bool, true, false, Option, none, some, List, [],
  length, ◌∷◌, ◌++◌, map, ◌==◌, if◌then◌else◌, ◌>>=◌, pos, ℤ, arith, Bool-cases, inl, inr,
}
use linux_kernel_modules.Text.{decimal, number_after}
use linux_kernel_modules.Text.Decimal.{number_after-decimal}
use linux_kernel_modules.Keyboard.Ring.{
  KeyEvent, Ring, fresh, sizeof_ev, kbdmon_event, kbdmon_read, take_event,
}
use linux_kernel_modules.Keyboard.Ring.Inv.{
  IsValid, contents, push_event-IsValid, take_event-IsValid,
}
use linux_kernel_modules.Keyboard.Ring.Queue.{
  but_first, push, push_refines, read-contents, read-empty,
}

abbrev pub code_label : List ℕ
code_label = b'c' ∷ b'o' ∷ b'd' ∷ b'e' ∷ b'=' ∷ []

abbrev pub value_label : List ℕ
value_label = b' ' ∷ b'v' ∷ b'a' ∷ b'l' ∷ b'u' ∷ b'e' ∷ b'=' ∷ []

-- "code=%u value=%u\n".
unfoldable pub line : KeyEvent → List ℕ
line ev = code_label ++ decimal (pos ev.code) (value_label ++ decimal (pos ev.value) (b'\n' ∷ []))

-- An input event is reported, or the program goes round its loop.
pub data Op : Type 0 where
  key : (type code value : ℕ) → Op
  round : Op

-- The variable of the program behind a read.
abbrev pub filled : KeyEvent → Option KeyEvent → KeyEvent
filled ev none = ev
filled ev (some new) = new

-- The lines that `main` prints. `opened`: `open` gave a file; without one each read fails. A round
-- in which the read sleeps is passed over: the program looks again in a later one. No signal comes,
-- and `ev` can be written.
unfoldable pub demo : (ev_key : ℕ) (opened : Bool) (ev : KeyEvent) → Ring → List Op → List (List ℕ)
demo ev_key opened ev r [] = []
demo ev_key opened ev r (key type code value ∷ ops) =
    demo ev_key opened ev (kbdmon_event ev_key type code value r) ops
demo ev_key false ev r (round ∷ ops) = line ev ∷ demo ev_key false ev r ops
demo ev_key true ev r (round ∷ ops) = elim (kbdmon_read sizeof_ev false false r) [
  | none ↦ demo ev_key true ev r ops
  | some o ↦ line (filled ev o.out) ∷ demo ev_key true (filled ev o.out) o.ring ops
]

-- A reader of the output takes a line apart.
abbrev pub parse_line : List ℕ → Option (ℤ × ℤ)
parse_line text = do
  code ← number_after code_label text
  value ← number_after value_label code.1
  some (code.0, value.0)

abbrev pub numbers : KeyEvent → Option (ℤ × ℤ)
numbers ev = some (pos ev.code, pos ev.value)

-- The codes and values are those of the input core, which fit the fields of the event.
abbrev pub Fit : List Op → Type 0
Fit [] = Unit {0}
Fit (key type code value ∷ ops) = (code < 2 ^ 16) × (value < 2 ^ 8) × Fit ops
Fit (round ∷ ops) = Fit ops

abbrev pub pressed : (ev_key type code value : ℕ) → List KeyEvent → List KeyEvent
pressed ev_key type code value q =
    if type == ev_key then push (record { code = code; value = value }) q else q

-- What is to be shown: of a queue of the newest 127 events, the oldest one in each round.
unfoldable pub shown : (ev_key : ℕ) → List KeyEvent → List Op → List KeyEvent
shown ev_key q [] = []
shown ev_key q (key type code value ∷ ops) = shown ev_key (pressed ev_key type code value q) ops
shown ev_key [] (round ∷ ops) = shown ev_key [] ops
shown ev_key (x ∷ q) (round ∷ ops) = x ∷ shown ev_key q ops

abbrev IsSmall : KeyEvent → Type 0
IsSmall ev = (ev.code < 2 ^ 16) × (ev.value < 2 ^ 8)

parse_line-line : (ev : KeyEvent) → IsSmall ev → parse_line (line ev) ≡ numbers ev
unfolding line
parse_line-line ev (c, v) =
    rw
      (
        number_after-decimal code_label (pos ev.code)
            (value_label ++ decimal (pos ev.value) (b'\n' ∷ [])) (omega arith) refl refl,
        number_after-decimal value_label (pos ev.value) (b'\n' ∷ []) (omega arith) refl refl,
      )
      refl

abbrev AllSmall : List KeyEvent → Type 0
AllSmall [] = Unit {0}
AllSmall (x ∷ q) = IsSmall x × AllSmall q

AllSmall-append :
    (q : List KeyEvent) (ev : KeyEvent) → AllSmall q → IsSmall ev → AllSmall (q ++ (ev ∷ []))
AllSmall-append [] ev h s = (s, tt)
AllSmall-append (x ∷ q) ev (h, hs) s = (h, AllSmall-append q ev hs s)

AllSmall-but_first : (q : List KeyEvent) → AllSmall q → AllSmall (but_first q)
AllSmall-but_first [] h = tt
AllSmall-but_first (x ∷ q) h = h.1

AllSmall-push : (ev : KeyEvent) (q : List KeyEvent) → AllSmall q → IsSmall ev → AllSmall (push ev q)
unfolding push
AllSmall-push ev q h s = elim (Bool-cases (length q == 127)) [
  | inl full ↦ rw full (AllSmall-but_first (q ++ (ev ∷ [])) (AllSmall-append q ev h s))
  | inr room ↦ rw room (AllSmall-append q ev h s)
]

module _ (ev_key : ℕ) where
  -- The ring holds the queue of what is to be shown.
  record Holds (r : Ring) (q : List KeyEvent) : Type 0 where
    valid : IsValid r
    same : contents r ≡ q
    small : AllSmall q

  Holds-key :
      (type code value : ℕ) (r : Ring) (q : List KeyEvent)
      → code < 2 ^ 16
      → value < 2 ^ 8
      → Holds r q
      → Holds (kbdmon_event ev_key type code value r) (pressed ev_key type code value q)
  unfolding kbdmon_event
  Holds-key type code value r q c v h = elim (Bool-cases (type == ev_key)) [
    | inr other ↦ rw other h
    | inl press ↦ rw press (
        let code_fits : code % 2 ^ 16 ≡ code = omega arith in
        let value_fits : value % 2 ^ 8 ≡ value = omega arith in
        rw (code_fits, value_fits)
          (record {
            valid = push_event-IsValid (record { code = code; value = value }) r h.valid;
            same =
                push_refines (record { code = code; value = value }) r h.valid
                ∙ ap (push (record { code = code; value = value })) h.same;
            small = AllSmall-push (record { code = code; value = value }) q h.small (c, v);
          }))
  ]

  demo_from :
      (ops : List Op) (ev : KeyEvent) (r : Ring) (q : List KeyEvent)
      → Fit ops
      → Holds r q
      → map parse_line (demo ev_key true ev r ops) ≡ map numbers (shown ev_key q ops)
  unfolding demo shown
  demo_from [] ev r q f h = refl
  demo_from (key type code value ∷ ops) ev r q (c, v, f) h =
      demo_from ops ev (kbdmon_event ev_key type code value r) (pressed ev_key type code value q) f
        (Holds-key type code value r q c v h)
  demo_from (round ∷ ops) ev r [] f h =
      rw (read-empty r h.valid h.same, demo) (demo_from ops ev r [] f h)
  demo_from (round ∷ ops) ev r (x ∷ q) f h =
      let (read, left) = read-contents r x q h.valid h.same in
      rw (read, demo)
        (ap₂ (λ l ls. l ∷ ls) (parse_line-line x h.small.0)
          (demo_from ops x (take_event r).1 q f
            (record { valid = take_event-IsValid r h.valid; same = left; small = h.small.1 })))

  -- With the device open, no signal and a program that does nothing else: over any run of input
  -- events, whose codes and values fit their fields, and rounds of the program, the lines that it
  -- prints are read back as the newest 127 key events that it has not shown yet, oldest first, one in
  -- each round that finds any.
  pub demo_shows_the_newest :
      (ops : List Op) (ev : KeyEvent)
      → Fit ops
      → map parse_line (demo ev_key true ev fresh ops) ≡ map numbers (shown ev_key [] ops)
  demo_shows_the_newest ops ev f = demo_from ops ev fresh [] f (record {
    valid = record { storage = refl; head_in = omega arith; tail_in = omega arith };
    same = refl;
    small = tt;
  })
