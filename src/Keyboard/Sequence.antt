-- ===== src/Keyboard/Sequence.antt =====
-- The hotkey detector of LKM/Keyboard_monitor/kbdmon_sequence_detector.c.
use linux_kernel_modules.Base.{
  ℕ, ◌≡◌, ◌≢◌, ◌↔◌, refl, Bool, true, false, not, ◌&&◌, List, [], ◌∷◌, ◌==◌, if◌then◌else◌, arith,
  ℤ, pos, negsuc,
}
use linux_kernel_modules.Kernel.{is_zero}

-- The constants of <linux/input-event-codes.h> that the handler compares with.
pub record Codes : Type 0 where
  pub ev_key : ℕ
  pub key_leftctrl : ℕ
  pub key_leftalt : ℕ
  pub key_k : ℕ

pub record Event : Type 0 where
  pub type : ℕ
  pub code : ℕ
  pub value : ℤ

-- `struct sequence_buffer`, zeroed at the start.
pub record SequenceBuffer : Type 0 where
  pub ctrl_down : ℤ
  pub alt_down : ℤ

abbrev pub empty : SequenceBuffer
empty = record { ctrl_down = pos 0; alt_down = pos 0 }

-- `value == 1`.
abbrev pub is_one : ℤ → Bool
is_one (pos n) = n == 1
is_one (negsuc n) = false

module _ (c : Codes) where
  abbrev pub note_keys : Event → SequenceBuffer → SequenceBuffer
  note_keys e s = record {
    ctrl_down = if e.code == c.key_leftctrl then e.value else s.ctrl_down;
    alt_down = if e.code == c.key_leftalt then e.value else s.alt_down;
  }

  -- `kbdmon_event`; the Boolean says that the hotkey is reported.
  unfoldable pub kbdmon_event : Event → SequenceBuffer → SequenceBuffer × Bool
  kbdmon_event e s = if not (e.type == c.ev_key) then (s, false) else (
    note_keys e s,
    not (is_zero (note_keys e s).ctrl_down)
        && not (is_zero (note_keys e s).alt_down)
        && (e.code == c.key_k)
        && is_one e.value,
  )

  -- The state after a history of events, the latest first.
  unfoldable pub after : List Event → SequenceBuffer
  after [] = empty
  after (e ∷ past) = (kbdmon_event e (after past)).0

  -- The value of the latest key event of a key; 0 if there was none.
  unfoldable pub latest : ℕ → List Event → ℤ
  latest code [] = pos 0
  latest code (e ∷ past) =
      if (e.type == c.ev_key) && (e.code == code) then e.value else latest code past

  after-latest :
      (past : List Event)
      → after past
        ≡ record { ctrl_down = latest c.key_leftctrl past; alt_down = latest c.key_leftalt past }
  unfolding after latest kbdmon_event
  after-latest [] = refl
  after-latest (e ∷ past) = ground (arith, after-latest past)

  -- The hotkey is reported at an event exactly when the event is a press of K, and the latest
  -- events of left Ctrl and of left Alt before it were presses or repeats: their values are not 0.
  pub hotkey_iff :
      (e : Event) (past : List Event)
      → c.key_k ≢ c.key_leftctrl
      → c.key_k ≢ c.key_leftalt
      → ((kbdmon_event e (after past)).1 ≡ true) ↔ (
          (e.type ≡ c.ev_key)
          × (e.code ≡ c.key_k)
          × (e.value ≡ pos 1)
          × (is_zero (latest c.key_leftctrl past) ≡ false)
          × (is_zero (latest c.key_leftalt past) ≡ false))
  unfolding kbdmon_event
  hotkey_iff e past nc na = rw (after-latest past) (ground arith)
