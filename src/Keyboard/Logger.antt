-- ===== src/Keyboard/Logger.antt =====
-- The key logger of LKM/Keyboard_monitor/kbdmon_keylogger.c.
pub mod Sent
use native.Mathlib.Numerals.{add-one}
use linux_kernel_modules.Base.{
  ℕ, zero, suc, ◌+◌, ◌-◌, ◌%◌, ◌^◌, ◌<◌, ◌≡◌, ◌≢◌, refl, sym, ap, ◌∙◌, false, not, ◌&&◌, ◌||◌, List,
  [], ◌∷◌, ◌++◌, ◌==◌, ltb, leb, if◌then◌else◌, arith, length, set, take, replicate, length-take,
  Bool-cases, inl, inr, length-set,
}

abbrev pub log_size : ℕ
log_size = 256

-- The constants of <linux/input-event-codes.h>.
pub record Codes : Type 0 where
  pub ev_key : ℕ
  pub key_a : ℕ
  pub key_z : ℕ
  pub key_space : ℕ

-- The static `logbuf` and `logpos`. `logpos` is an `int`, never negative.
pub record Log : Type 0 where
  pub logbuf : List ℕ
  pub logpos : ℕ

abbrev pub fresh : Log
fresh = record { logbuf = replicate log_size 0; logpos = 0 }

-- What `%s` prints: the bytes before the first NUL.
abbrev pub c_string : List ℕ → List ℕ
c_string [] = []
c_string (x ∷ xs) = if x == 0 then [] else x ∷ c_string xs

-- `exfiltrate` in three parts, between which key events may come: nothing keeps the handler out of it.
-- The NUL is written, where the log is not empty,
unfoldable pub terminate : Log → Log
terminate s = record s { logbuf = set s.logbuf s.logpos 0 }

-- the text is printed,
unfoldable pub print : Log → List ℕ
print s = c_string s.logbuf

-- and the log is emptied. The timer is set again in any case.
unfoldable pub clear : Log → Log
clear s = record s { logpos = 0 }

module _ (c : Codes) where
  -- `char` arithmetic wraps at 8 bits.
  unfoldable pub key_to_char : ℕ → ℕ
  key_to_char code =
      if leb c.key_a code && leb code c.key_z
      then (b'a' + (code - c.key_a)) % 2 ^ 8
      else if code == c.key_space
      then b' '
      else b'?'

  unfoldable pub kbdmon_event : (type code value : ℕ) → Log → Log
  kbdmon_event type code value s =
      if not (type == c.ev_key) || not (value == 1)
      then s
      else if ltb s.logpos (log_size - 1)
      then record { logbuf = set s.logbuf s.logpos (key_to_char code); logpos = s.logpos + 1 }
      else s

  -- The characters lie in one range, as they do for the kernel's KEY_A = 30 and KEY_Z = 44.
  abbrev pub Narrow : Type 0
  Narrow = c.key_z < c.key_a + 26

  pub key_to_char-ne-zero : (code : ℕ) → Narrow → key_to_char code ≢ 0
  unfolding key_to_char
  key_to_char-ne-zero code h = ground arith

-- The log is within its buffer, with room for the NUL, and holds no NUL.
abbrev pub NoNul : ℕ → List ℕ → Type 0
NoNul zero xs = Unit {0}
NoNul (suc n) [] = Unit {0}
NoNul (suc n) (x ∷ xs) = (x ≢ 0) × NoNul n xs

pub record IsValid (s : Log) : Type 0 where
  pub storage : length s.logbuf ≡ log_size
  pub room : s.logpos < log_size
  pub text : NoNul s.logpos s.logbuf

-- What was typed since the log was last emptied.
abbrev pub typed : Log → List ℕ
typed s = take s.logpos s.logbuf

take-set :
    (n : ℕ) (xs : List ℕ) (x : ℕ)
    → n < length xs
    → take (suc n) (set xs n x) ≡ take n xs ++ (x ∷ [])
take-set n [] x h = absurd (omega arith)
take-set zero (y ∷ xs) x h = refl
take-set (suc n) (y ∷ xs) x h = ap (λ l. y ∷ l) (take-set n xs x (omega arith))

NoNul-set : (n : ℕ) (xs : List ℕ) (x : ℕ) → x ≢ 0 → NoNul n xs → NoNul (suc n) (set xs n x)
NoNul-set n [] x h k = tt
NoNul-set zero (y ∷ xs) x h k = (h, tt)
NoNul-set (suc n) (y ∷ xs) x h k = (k.0, NoNul-set n xs x h k.1)

c_string-set :
    (n : ℕ) (xs : List ℕ) → n < length xs → NoNul n xs → c_string (set xs n 0) ≡ take n xs
c_string-set n [] h k = absurd (omega arith)
c_string-set zero (y ∷ xs) h k = refl
c_string-set (suc n) (y ∷ xs) h k = ground (arith, c_string-set n xs)

take-unset : (n : ℕ) (xs : List ℕ) (x : ℕ) → take n (set xs n x) ≡ take n xs
take-unset n [] x = refl
take-unset zero (y ∷ xs) x = refl
take-unset (suc n) (y ∷ xs) x = ap (λ l. y ∷ l) (take-unset n xs x)

NoNul-unset : (n : ℕ) (xs : List ℕ) (x : ℕ) → NoNul n xs → NoNul n (set xs n x)
NoNul-unset n [] x k = k
NoNul-unset zero (y ∷ xs) x k = tt
NoNul-unset (suc n) (y ∷ xs) x k = (k.0, NoNul-unset n xs x k.1)

-- What is printed begins with the bytes before which no NUL stands.
c_string-begins :
    (n : ℕ) (xs : List ℕ) → NoNul n xs → (more : List ℕ) × (c_string xs ≡ take n xs ++ more)
c_string-begins zero xs k = (c_string xs, refl)
c_string-begins (suc n) [] k = ([], refl)
c_string-begins (suc n) (x ∷ xs) k =
    let (more, e) = c_string-begins n xs k.1 in
    let go : (x == 0) ≡ false = ground (arith, k.0) in (more, rw go (ap (λ l. x ∷ l) e))

pub print-begins : (s : Log) → IsValid s → (more : List ℕ) × (print s ≡ typed s ++ more)
unfolding print
print-begins s v = c_string-begins s.logpos s.logbuf v.text

-- The NUL is written inside the buffer; printed behind it, the text is what was typed.
pub terminate_lem :
    (s : Log)
    → IsValid s
    → let s' = terminate s in IsValid s' × (typed s' ≡ typed s) × (print s' ≡ typed s')
unfolding terminate print
terminate_lem s v =
    let same = take-unset s.logpos s.logbuf 0 in
    (
      record {
        storage = length-set s.logbuf s.logpos 0 ∙ v.storage;
        room = v.room;
        text = NoNul-unset s.logpos s.logbuf 0 v.text;
      },
      same,
      c_string-set s.logpos s.logbuf (omega (arith, v.room, v.storage)) v.text ∙ sym same,
    )

pub clear-IsValid : (s : Log) → IsValid s → IsValid (clear s) × (typed (clear s) ≡ [])
unfolding clear
clear-IsValid s v = (record { storage = v.storage; room = omega arith; text = tt }, refl)

pub length-typed : (s : Log) → IsValid s → length (typed s) ≡ s.logpos
length-typed s v = omega (arith, length-take s.logpos s.logbuf)

store_char : ℕ → Log → Log
store_char x s = record { logbuf = set s.logbuf s.logpos x; logpos = s.logpos + 1 }

store_char_lem :
    (x : ℕ) (s : Log)
    → x ≢ 0
    → IsValid s
    → s.logpos < log_size - 1
    → IsValid (store_char x s) × (typed (store_char x s) ≡ typed s ++ (x ∷ []))
unfolding store_char
store_char_lem x s h v lt = (
  record {
    storage = length-set s.logbuf s.logpos x ∙ v.storage;
    room = omega arith;
    text = rw add-one (NoNul-set s.logpos s.logbuf x h v.text);
  },
  rw add-one (take-set s.logpos s.logbuf x (omega arith)),
)

-- A key press adds its character while fewer than 255 are there; later presses, and all other
-- events, change nothing.
pub kbdmon_event_lem :
    (c : Codes) (type code value : ℕ) (s : Log)
    → Narrow c
    → IsValid s
    → let s' = kbdmon_event c type code value s in
      IsValid s'
      × (typed s' ≡ (
          if (type == c.ev_key) && (value == 1) && ltb (length (typed s)) (log_size - 1)
          then typed s ++ (key_to_char c code ∷ [])
          else typed s))
unfolding kbdmon_event store_char
kbdmon_event_lem c type code value s h v =
    rw (length-typed s v) (elim (Bool-cases (type == c.ev_key)) [
      | inr e ↦ rw e (v, refl)
      | inl e ↦ rw e (elim (Bool-cases (value == 1)) [
        | inr p ↦ rw p (v, refl)
        | inl p ↦ rw p (elim (Bool-cases (ltb s.logpos (log_size - 1))) [
          | inr full ↦ rw full (v, refl)
          | inl room ↦ rw room (
              store_char_lem (key_to_char c code) s (key_to_char-ne-zero c code h) v (ground arith))
        ])
      ])
    ])

-- An event that is no key press changes nothing.
pub kbdmon_event-silent :
    (c : Codes) (type code value : ℕ) (s : Log)
    → ((type == c.ev_key) && (value == 1)) ≡ false
    → kbdmon_event c type code value s ≡ s
unfolding kbdmon_event
kbdmon_event-silent c type code value s h = ground arith

-- A letter whose code is behind KEY_Z, as KEY_B, KEY_C, KEY_M, KEY_N, KEY_V and KEY_X are in the
-- kernel's table, is logged as `?`.
pub letter_behind_z :
    (c : Codes) (letter : ℕ) → c.key_z < letter → letter ≢ c.key_space → key_to_char c letter ≡ b'?'
unfolding key_to_char
letter_behind_z c letter h ns = ground arith
