-- ===== src/Keyboard/Names/Lookup.antt =====
-- Which name LKM/Keyboard_monitor/kbdmon.c logs for which key.
use mathlib.Core.Option.{some-injective}
use linux_kernel_modules.Base.{
  ℕ, zero, suc, none, some, List, [], ◌∷◌, ◌==◌, if◌then◌else◌, ◌≡◌, ◌≢◌, refl, sym, ap, arith,
  get_elem?, Bool-cases, inl, inr, ◌∙◌,
}
use linux_kernel_modules.Keyboard.Names.{
  Key, all_keys, name, name_among, key_name, report_of, kbdmon_event, key_a, key_b, key_c, key_d,
  key_e, key_f, key_g, key_h, key_i, key_j, key_k, key_l, key_m, key_n, key_o, key_p, key_q, key_r,
  key_s, key_t, key_u, key_v, key_w, key_x, key_y, key_z, key_digit_1, key_digit_2, key_digit_3,
  key_digit_4, key_digit_5, key_digit_6, key_digit_7, key_digit_8, key_digit_9, key_digit_0,
  key_enter, key_space, key_esc, key_backspace, key_tab, key_left_shift, key_right_shift,
  key_left_ctrl, key_right_ctrl, key_left_alt, key_right_alt,
}

pub index : Key → ℕ
index key_a = 0
index key_b = 1
index key_c = 2
index key_d = 3
index key_e = 4
index key_f = 5
index key_g = 6
index key_h = 7
index key_i = 8
index key_j = 9
index key_k = 10
index key_l = 11
index key_m = 12
index key_n = 13
index key_o = 14
index key_p = 15
index key_q = 16
index key_r = 17
index key_s = 18
index key_t = 19
index key_u = 20
index key_v = 21
index key_w = 22
index key_x = 23
index key_y = 24
index key_z = 25
index key_digit_1 = 26
index key_digit_2 = 27
index key_digit_3 = 28
index key_digit_4 = 29
index key_digit_5 = 30
index key_digit_6 = 31
index key_digit_7 = 32
index key_digit_8 = 33
index key_digit_9 = 34
index key_digit_0 = 35
index key_enter = 36
index key_space = 37
index key_esc = 38
index key_backspace = 39
index key_tab = 40
index key_left_shift = 41
index key_right_shift = 42
index key_left_ctrl = 43
index key_right_ctrl = 44
index key_left_alt = 45
index key_right_alt = 46

listed : (k : Key) → get_elem? all_keys (index k) ≡ some k
unfolding index
listed key_a = refl
listed key_b = refl
listed key_c = refl
listed key_d = refl
listed key_e = refl
listed key_f = refl
listed key_g = refl
listed key_h = refl
listed key_i = refl
listed key_j = refl
listed key_k = refl
listed key_l = refl
listed key_m = refl
listed key_n = refl
listed key_o = refl
listed key_p = refl
listed key_q = refl
listed key_r = refl
listed key_s = refl
listed key_t = refl
listed key_u = refl
listed key_v = refl
listed key_w = refl
listed key_x = refl
listed key_y = refl
listed key_z = refl
listed key_digit_1 = refl
listed key_digit_2 = refl
listed key_digit_3 = refl
listed key_digit_4 = refl
listed key_digit_5 = refl
listed key_digit_6 = refl
listed key_digit_7 = refl
listed key_digit_8 = refl
listed key_digit_9 = refl
listed key_digit_0 = refl
listed key_enter = refl
listed key_space = refl
listed key_esc = refl
listed key_backspace = refl
listed key_tab = refl
listed key_left_shift = refl
listed key_right_shift = refl
listed key_left_ctrl = refl
listed key_right_ctrl = refl
listed key_left_alt = refl
listed key_right_alt = refl

-- Different keys have different indices.
pub index-injective : (j l : Key) → index j ≡ index l → j ≡ l
index-injective j l e =
    some-injective j l (sym (listed j) ∙ ap (λ i. get_elem? all_keys i) e ∙ listed l)

name_among-listed :
    (codes : Key → ℕ) (ks : List Key) (i : ℕ) (k : Key)
    → ((j l : Key) → codes j ≡ codes l → j ≡ l)
    → get_elem? ks i ≡ some k
    → name_among codes ks (codes k) ≡ name k
unfolding name_among
name_among-listed codes [] i k inj h = cc
name_among-listed codes (j ∷ ks) zero k inj h = let same : j ≡ k = cc h in rw same (ground arith)
name_among-listed codes (j ∷ ks) (suc i) k inj h = elim (Bool-cases (codes k == codes j)) [
  | inl e ↦ rw e (ap name (inj j k (ground arith)))
  | inr e ↦ rw e (name_among-listed codes ks i k inj h)
]

name_among-other :
    (codes : Key → ℕ) (ks : List Key) (code : ℕ)
    → ((k : Key) → code ≢ codes k)
    → name_among codes ks code ≡ "UNKNOWN"
unfolding name_among
name_among-other codes [] code h = refl
name_among-other codes (k ∷ ks) code h = ground (arith, h k, name_among-other codes ks code h)

-- With different codes for different keys, as the compiler demands of the cases of a `switch`, each
-- of the 47 keys is logged under its own name.
pub key_name-code :
    (codes : Key → ℕ) (k : Key)
    → ((j l : Key) → codes j ≡ codes l → j ≡ l)
    → key_name codes (codes k) ≡ name k
unfolding key_name
key_name-code codes k inj = name_among-listed codes all_keys (index k) k inj (listed k)

-- A key event with a code that no key has is logged by its value, as release, press or repeat, with
-- the code and the name `UNKNOWN`; an event of another type is not logged.
pub kbdmon_event-unknown :
    (codes : Key → ℕ) (ev_key type code value : ℕ)
    → ((k : Key) → code ≢ codes k)
    → kbdmon_event codes ev_key type code value
      ≡ (if type == ev_key then report_of value code "UNKNOWN" else none)
unfolding kbdmon_event
kbdmon_event-unknown codes ev_key type code value h =
    rw (name_among-other codes all_keys code h) (ground arith)
