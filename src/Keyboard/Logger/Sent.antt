-- ===== src/Keyboard/Logger/Sent.antt =====
-- What leaves the machine over a run of LKM/Keyboard_monitor/kbdmon_keylogger.c: `kbdmon_event` on
-- key events and `exfiltrate` on the timer, in any order. The handler takes no lock, so that key
-- events also come between the parts of `exfiltrate`; each part, and each event, is one step.
use linux_kernel_modules.Base.{
  ℕ, ◌-◌, ◌≡◌, true, false, ◌&&◌, ◌||◌, Bool, List, [], ◌∷◌, ◌++◌, ◌==◌, ltb, if◌then◌else◌, take,
}
use linux_kernel_modules.Keyboard.Logger.{
  Codes, Log, log_size, key_to_char, kbdmon_event, terminate, print, clear, typed,
}

-- An input event is reported, or `exfiltrate` goes on: a timer that fires begins it.
pub data Event : Type 0 where
  key : (type code value : ℕ) → Event
  timer : Event

-- Where `exfiltrate` stands: not running, behind the NUL, or behind the print.
pub data Phase : Type 0 where
  waiting terminated printed : Phase

-- The texts printed, in order.
unfoldable pub sent : Codes → List Event → Phase → Log → List (List ℕ)
sent c [] p s = []
sent c (key type code value ∷ es) p s = sent c es p (kbdmon_event c type code value s)
sent c (timer ∷ es) waiting s =
    let stopped = sent c es waiting s in
    let begun = sent c es terminated (terminate s) in if ltb 0 s.logpos then begun else stopped
sent c (timer ∷ es) terminated s = print s ∷ sent c es printed s
sent c (timer ∷ es) printed s = sent c es waiting (clear s)

-- Whether an event is the press of a key.
abbrev pub is_press : Codes → (type value : ℕ) → Bool
is_press c type value = (type == c.ev_key) && (value == 1)

-- The characters of the key presses since the log was last emptied.
abbrev pub press : Codes → (type code value : ℕ) → List ℕ → List ℕ
press c type code value text =
    if is_press c type value then text ++ (key_to_char c code ∷ []) else text

-- A text that is printed: the first 255 characters; where a key was pressed behind the NUL, with more
-- behind them.
abbrev pub Text : (disturbed : Bool) → (text printed : List ℕ) → Type 0
Text true text out = (more : List ℕ) × (out ≡ take (log_size - 1) text ++ more)
Text false text out = out ≡ take (log_size - 1) text

-- The texts printed, by the key presses alone: `text` are the characters since the last end of
-- `exfiltrate`; `disturbed`: a key was pressed behind the NUL.
abbrev pub AsPressed :
    Codes → List Event → Phase → (disturbed : Bool) → (text : List ℕ) → List (List ℕ) → Type 0
AsPressed c [] p disturbed text outs = outs ≡ []
AsPressed c (key type code value ∷ es) p disturbed text outs =
    AsPressed c es p (disturbed || is_press c type value) (press c type code value text) outs
AsPressed c (timer ∷ es) waiting disturbed [] outs = AsPressed c es waiting false [] outs
AsPressed c (timer ∷ es) waiting disturbed (x ∷ text) outs =
    AsPressed c es terminated false (x ∷ text) outs
AsPressed c (timer ∷ es) terminated disturbed text [] = ⊥
AsPressed c (timer ∷ es) terminated disturbed text (out ∷ outs) =
    Text disturbed text out × AsPressed c es printed false text outs
AsPressed c (timer ∷ es) printed disturbed text outs = AsPressed c es waiting false [] outs

-- Behind the NUL with no key pressed since, the whole text is printed.
abbrev Undisturbed : Phase → (disturbed : Bool) → Log → Type 0
Undisturbed terminated false s = print s ≡ typed s
Undisturbed terminated true s = Unit {0}
Undisturbed waiting disturbed s = Unit {0}
Undisturbed printed disturbed s = Unit {0}
