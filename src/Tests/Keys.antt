-- ===== src/Tests/Keys.antt =====
-- The theorems on the keyboard monitors at concrete inputs, with the kernel's key codes.
use linux_kernel_modules.Base.{
  ℕ, ◌≡◌, ◌↔◌, refl, true, false, List, [], ◌∷◌, ◌++◌, arith, pos, replicate,
}
use linux_kernel_modules.Kernel.{is_zero}
use linux_kernel_modules.Keyboard.Ring.{KeyEvent, Ring, no_event}
use linux_kernel_modules.Keyboard.Ring.Inv.{IsValid, contents}
use linux_kernel_modules.Keyboard.Ring.Queue.{Op, key, read, run, run_ring, ring_run_refines}
use linux_kernel_modules.Keyboard.Sequence
use linux_kernel_modules.Keyboard.Sequence.{hotkey_iff}

abbrev press_a : KeyEvent
press_a = record { code = 30; value = 1 }

abbrev release_a : KeyEvent
release_a = record { code = 30; value = 0 }

-- One press, in the last slot.
abbrev one_press : Ring
one_press = record { ring = replicate 127 no_event ++ (press_a ∷ []); head = 0; tail = 127 }

one_press-IsValid : IsValid one_press
one_press-IsValid = record { storage = refl; head_in = omega arith; tail_in = omega arith }

abbrev typing : List Op
typing = read ∷ key release_a ∷ read ∷ read ∷ key press_a ∷ []

ring_run_refines_example : run_ring one_press typing ≡ run (contents one_press) typing
ring_run_refines_example = ring_run_refines typing one_press one_press-IsValid

abbrev codes : Sequence.Codes
codes = record { ev_key = 1; key_leftctrl = 29; key_leftalt = 56; key_k = 37 }

abbrev event : ℕ → Sequence.Event
event code = record { type = 1; code = code; value = pos 1 }

-- Alt, then Ctrl, were pressed.
abbrev held : List Sequence.Event
held = event 29 ∷ event 56 ∷ []

hotkey_iff_example :
    ((Sequence.kbdmon_event codes (event 37) (Sequence.after codes held)).1 ≡ true) ↔ (
      ((event 37).type ≡ codes.ev_key)
      × ((event 37).code ≡ codes.key_k)
      × ((event 37).value ≡ pos 1)
      × (is_zero (Sequence.latest codes 29 held) ≡ false)
      × (is_zero (Sequence.latest codes 56 held) ≡ false))
hotkey_iff_example = hotkey_iff codes (event 37) held (omega arith) (omega arith)
