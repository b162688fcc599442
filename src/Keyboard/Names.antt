-- ===== src/Keyboard/Names.antt =====
-- `key_name` and the event report of LKM/Keyboard_monitor/kbdmon.c; `key_name` is the same text in
-- kbdmon_sequence_detector.c and kbdmon_timing.c.
pub mod Lookup
use Prim.Native.String.{String}
use mathlib.Core.Option.{some-injective}
use linux_kernel_modules.Base.{
  ℕ, zero, suc, not, Option, none, some, List, [], ◌∷◌, ◌==◌, if◌then◌else◌, ◌≡◌, ◌≢◌, refl, sym,
  ap, arith, get_elem?, Bool-cases, inl, inr, ◌∙◌,
}

-- The keys of the `switch`, in its order.
pub data Key : Type 0 where
  key_a key_b key_c key_d key_e key_f key_g key_h key_i key_j key_k key_l key_m key_n key_o : Key
  key_p key_q key_r key_s key_t key_u key_v key_w key_x key_y key_z key_digit_1 key_digit_2 : Key
  key_digit_3 key_digit_4 key_digit_5 key_digit_6 key_digit_7 key_digit_8 key_digit_9 : Key
  key_digit_0 key_enter key_space key_esc key_backspace key_tab key_left_shift : Key
  key_right_shift key_left_ctrl key_right_ctrl key_left_alt key_right_alt : Key

abbrev pub all_keys : List Key
all_keys =
    key_a ∷ key_b ∷ key_c ∷ key_d ∷ key_e ∷ key_f ∷ key_g ∷ key_h ∷ key_i ∷ key_j ∷ key_k ∷ key_l
    ∷ key_m ∷ key_n ∷ key_o ∷ key_p ∷ key_q ∷ key_r ∷ key_s ∷ key_t ∷ key_u ∷ key_v ∷ key_w ∷ key_x
    ∷ key_y ∷ key_z ∷ key_digit_1 ∷ key_digit_2 ∷ key_digit_3 ∷ key_digit_4 ∷ key_digit_5
    ∷ key_digit_6 ∷ key_digit_7 ∷ key_digit_8 ∷ key_digit_9 ∷ key_digit_0 ∷ key_enter ∷ key_space
    ∷ key_esc ∷ key_backspace ∷ key_tab ∷ key_left_shift ∷ key_right_shift ∷ key_left_ctrl
    ∷ key_right_ctrl ∷ key_left_alt ∷ key_right_alt ∷ []

-- The text of each case.
abbrev pub name : Key → String
name key_a = "A"
name key_b = "B"
name key_c = "C"
name key_d = "D"
name key_e = "E"
name key_f = "F"
name key_g = "G"
name key_h = "H"
name key_i = "I"
name key_j = "J"
name key_k = "K"
name key_l = "L"
name key_m = "M"
name key_n = "N"
name key_o = "O"
name key_p = "P"
name key_q = "Q"
name key_r = "R"
name key_s = "S"
name key_t = "T"
name key_u = "U"
name key_v = "V"
name key_w = "W"
name key_x = "X"
name key_y = "Y"
name key_z = "Z"
name key_digit_1 = "1"
name key_digit_2 = "2"
name key_digit_3 = "3"
name key_digit_4 = "4"
name key_digit_5 = "5"
name key_digit_6 = "6"
name key_digit_7 = "7"
name key_digit_8 = "8"
name key_digit_9 = "9"
name key_digit_0 = "0"
name key_enter = "ENTER"
name key_space = "SPACE"
name key_esc = "ESC"
name key_backspace = "BACKSPACE"
name key_tab = "TAB"
name key_left_shift = "LSHIFT"
name key_right_shift = "RSHIFT"
name key_left_ctrl = "LCTRL"
name key_right_ctrl = "RCTRL"
name key_left_alt = "LALT"
name key_right_alt = "RALT"

-- `codes` gives the constants KEY_A, ... of <linux/input-event-codes.h>.
unfoldable pub name_among : (codes : Key → ℕ) → List Key → ℕ → String
name_among codes [] code = "UNKNOWN"
name_among codes (k ∷ ks) code = if code == codes k then name k else name_among codes ks code

unfoldable pub key_name : (codes : Key → ℕ) → ℕ → String
unfolding name_among
key_name codes code = name_among codes all_keys code

-- The line that `kbdmon_event` logs.
pub data Report : Type 0 where
  release press repeat : (code : ℕ) (key : String) → Report

-- The `switch` on `value`, of a key event.
abbrev pub report_of : ℕ → ℕ → String → Option Report
report_of zero code key = some (release code key)
report_of (suc zero) code key = some (press code key)
report_of (suc (suc zero)) code key = some (repeat code key)
report_of (suc (suc (suc n))) code key = none

-- `kbdmon_event`, of a `value` that is not negative.
unfoldable pub kbdmon_event : (codes : Key → ℕ) (ev_key type code value : ℕ) → Option Report
unfolding key_name
kbdmon_event codes ev_key type code value =
    if not (type == ev_key) then none else report_of value code (key_name codes code)

-- `key_name` of kbdmon_sequence_detector.c and of kbdmon_timing.c, the same text, which nothing
-- calls.
abbrev pub sequence_key_name : (codes : Key → ℕ) → ℕ → String
sequence_key_name = key_name

abbrev pub timing_key_name : (codes : Key → ℕ) → ℕ → String
timing_key_name = key_name
