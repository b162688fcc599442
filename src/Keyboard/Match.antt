-- ===== src/Keyboard/Match.antt =====
-- Which input devices the monitors of LKM/Keyboard_monitor are offered: their tables `kbdmon_ids`,
-- and `ids` of kbdmon_keylogger.c. A `long` has 32 bits, as on the board.
use linux_kernel_modules.Base.{
  ℕ, zero, suc, ◌+◌, ◌*◌, ◌/◌, ◌%◌, ◌≤◌, ◌<◌, ◌≡◌, ◌↔◌, ◌⊎◌, refl, sym, ap, ◌∙◌, Bool, true, false,
  not, ◌&&◌, ◌||◌, ◌==◌, ==_iff, inl, inr, arith, Bool-cases,
}

abbrev pub bits_per_long : ℕ
bits_per_long = 32

-- The bits of an array of `long`, by number.
abbrev pub Bitmap : Type 0
Bitmap = ℕ → Bool

-- An array in which the element `word` is `BIT_MASK(n)`, and the others are 0.
abbrev pub placed : (word n : ℕ) → Bitmap
placed word n k = word * bits_per_long + n % bits_per_long == k

abbrev pub bit_word : ℕ → ℕ
bit_word n = n / bits_per_long

abbrev pub none_set : Bitmap
none_set k = false

-- `struct input_device_id`: two of its flags and of its bitmaps. The others are 0.
pub record InputDeviceId : Type 0 where
  pub match_evbit : Bool
  pub match_keybit : Bool
  pub evbit : Bitmap
  pub keybit : Bitmap

-- EV_KEY and KEY_A, and how many bits the core compares.
pub record Codes : Type 0 where
  pub ev_key : ℕ
  pub key_a : ℕ
  pub ev_cnt : ℕ
  pub key_cnt : ℕ

pub data Table : Type 0 where
  kbdmon chrdev sequence_detector timing keylogger : Table

module _ (c : Codes) where
  -- Events of type EV_KEY, in kbdmon.c, kbdmon_sequence_detector.c and kbdmon_timing.c.
  abbrev pub plain_ids : InputDeviceId
  plain_ids = record {
    match_evbit = true;
    match_keybit = false;
    evbit = placed 0 c.ev_key;
    keybit = none_set;
  }

  abbrev pub sequence_ids : InputDeviceId
  sequence_ids = plain_ids

  abbrev pub timing_ids : InputDeviceId
  timing_ids = plain_ids

  -- The key `A` too, in kbdmon_chrdev.c and kbdmon_keylogger.c.
  abbrev pub chrdev_ids : InputDeviceId
  chrdev_ids = record {
    match_evbit = true;
    match_keybit = true;
    evbit = placed 0 c.ev_key;
    keybit = placed (bit_word c.key_a) c.key_a;
  }

  abbrev pub keylogger_ids : InputDeviceId
  keylogger_ids = chrdev_ids

  abbrev pub ids_of : Table → InputDeviceId
  ids_of kbdmon = plain_ids
  ids_of sequence_detector = sequence_ids
  ids_of timing = timing_ids
  ids_of chrdev = chrdev_ids
  ids_of keylogger = keylogger_ids

-- What a device says of itself: the types of its events, and its keys.
pub record InputDev : Type 0 where
  pub evbit : Bitmap
  pub keybit : Bitmap

-- The first `n` bits of one bitmap are set in the other too.
abbrev pub subset : (n : ℕ) → Bitmap → Bitmap → Bool
subset zero want have = true
subset (suc n) want have = (not (want n) || have n) && subset n want have

-- The input core, documented: a flag asks that all bits of its bitmap be set in the device's.
pub record Core (c : Codes) : Type 0 where
  pub matches : InputDeviceId → InputDev → Bool
  pub matches_lem :
      (id : InputDeviceId) (dev : InputDev)
      → matches id dev ≡ (
          (not id.match_evbit || subset c.ev_cnt id.evbit dev.evbit)
          && (not id.match_keybit || subset c.key_cnt id.keybit dev.keybit))

-- Whether the keyboard has to have an `A`.
abbrev pub asks_for_a : Table → Bool
asks_for_a kbdmon = false
asks_for_a sequence_detector = false
asks_for_a timing = false
asks_for_a chrdev = true
asks_for_a keylogger = true

-- A bitmap with one bit, which is not among those compared.
subset_beyond :
    (n k : ℕ) (want have : Bitmap)
    → ((i : ℕ) → want i ≡ (k == i))
    → n ≤ k
    → subset n want have ≡ true
subset_beyond zero k want have w h = refl
subset_beyond (suc n) k want have w h =
    let other : (k == n) ≡ false = ground arith in
    rw (w n, other, subset_beyond n k want have w (omega arith)) refl

and_true : (b : Bool) → (b && true) ≡ b
and_true true = refl
and_true false = refl

subset_one :
    (n k : ℕ) (want have : Bitmap)
    → ((i : ℕ) → want i ≡ (k == i))
    → k < n
    → subset n want have ≡ have k
subset_one zero k want have w h = absurd (omega arith)
subset_one (suc n) k want have w h = elim (Bool-cases (k == n)) [
  | inl last ↦
      rw (w n, last, subset_beyond n k want have w (omega (arith, (==_iff k n).0 last)))
        (and_true (have n) ∙ ap have (sym ((==_iff k n).0 last)))
  | inr other ↦ rw (w n, other) (subset_one n k want have w (ground arith))
]

-- The codes are those of bits that the core compares, and EV_KEY is one of the first word.
pub record IsInRange (c : Codes) : Type 0 where
  pub first_word : c.ev_key < bits_per_long
  pub type : c.ev_key < c.ev_cnt
  pub key : c.key_a < c.key_cnt

module _ (c : Codes) (core : Core c) (dev : InputDev) where
  subset-ev_key : IsInRange c → subset c.ev_cnt (placed 0 c.ev_key) dev.evbit ≡ dev.evbit c.ev_key
  subset-ev_key h =
      subset_one c.ev_cnt c.ev_key (placed 0 c.ev_key) dev.evbit
        (λ i. ap (λ m. m == i) (omega (arith, h.first_word))) h.type

  subset-key_a :
      IsInRange c
      → subset c.key_cnt (placed (bit_word c.key_a) c.key_a) dev.keybit ≡ dev.keybit c.key_a
  subset-key_a h =
      subset_one c.key_cnt c.key_a (placed (bit_word c.key_a) c.key_a) dev.keybit
        (λ i. ap (λ m. m == i) (omega arith)) h.key

  matches-plain_ids : IsInRange c → core.matches (plain_ids c) dev ≡ dev.evbit c.ev_key
  matches-plain_ids h =
      core.matches_lem (plain_ids c) dev ∙ rw (subset-ev_key h) (and_true (dev.evbit c.ev_key))

  matches-chrdev_ids :
      IsInRange c → core.matches (chrdev_ids c) dev ≡ (dev.evbit c.ev_key && dev.keybit c.key_a)
  matches-chrdev_ids h =
      core.matches_lem (chrdev_ids c) dev ∙ rw (subset-ev_key h, subset-key_a h) refl

  -- A device is offered to a monitor exactly when it reports key events and, for kbdmon_chrdev.c and
  -- kbdmon_keylogger.c, has the key `A`. For an input core that compares bitmaps as documented, and
  -- codes within them.
  pub matches_iff :
      (t : Table)
      → IsInRange c
      → (core.matches (ids_of c t) dev ≡ true)
        ↔ ((dev.evbit c.ev_key ≡ true) × ((asks_for_a t ≡ false) ⊎ (dev.keybit c.key_a ≡ true)))
  matches_iff kbdmon h = rw (matches-plain_ids h) (ground arith)
  matches_iff sequence_detector h = rw (matches-plain_ids h) (ground arith)
  matches_iff timing h = rw (matches-plain_ids h) (ground arith)
  matches_iff chrdev h = rw (matches-chrdev_ids h) (ground arith)
  matches_iff keylogger h = rw (matches-chrdev_ids h) (ground arith)
