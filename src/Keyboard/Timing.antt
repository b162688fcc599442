-- ===== src/Keyboard/Timing.antt =====
-- The timing of key presses in LKM/Keyboard_monitor/kbdmon_timing.c.
use linux_kernel_modules.Base.{
  ℕ, suc, ◌-◌, ◌/◌, ◌≤◌, ◌<◌, ◌≡◌, refl, ap, not, ◌||◌, Option, none, some, List, [], ◌∷◌, ◌==◌,
  if◌then◌else◌, ℤ, pos, negsuc, sub_ℕ, ◌-ℤ◌, arith,
}

-- `div64_s64` by a positive number: towards zero.
abbrev pub div64_s64 : ℤ → ℕ → ℤ
div64_s64 (pos n) d = pos (n / d)
div64_s64 (negsuc n) d = sub_ℕ 0 (suc n / d)

-- `kbdmon_event`: `now` is what `ktime_get` returns, in nanoseconds since boot, and the state is
-- `last_press`, 0 at the start. The microseconds that are logged, if any.
unfoldable pub kbdmon_event : (ev_key type value now last_press : ℕ) → ℕ × Option ℤ
unfolding ◌-ℤ◌
kbdmon_event ev_key type value now last_press =
    if not (type == ev_key) || not (value == 1) then (last_press, none) else (
      now,
      (if not (last_press == 0) then some (div64_s64 (pos now -ℤ pos last_press) 1000) else none),
    )

abbrev pub noted : Option ℤ → List ℤ → List ℤ
noted none ds = ds
noted (some d) ds = d ∷ ds

-- What is logged over presses at the given times.
unfoldable pub presses : (ev_key last_press : ℕ) → List ℕ → List ℤ
unfolding kbdmon_event
presses ev_key last_press [] = []
presses ev_key last_press (now ∷ times) =
    noted (kbdmon_event ev_key ev_key 1 now last_press).1
      (presses ev_key (kbdmon_event ev_key ev_key 1 now last_press).0 times)

-- The times never fall, from `from` on.
abbrev pub Rising : ℕ → List ℕ → Type 0
Rising from [] = Unit {0}
Rising from (t ∷ ts) = (from ≤ t) × Rising t ts

-- The distances in whole microseconds.
abbrev pub gaps : ℕ → List ℕ → List ℕ
gaps from [] = []
gaps from (t ∷ ts) = (t - from) / 1000 ∷ gaps t ts

abbrev pub as_ints : List ℕ → List ℤ
as_ints [] = []
as_ints (n ∷ ns) = pos n ∷ as_ints ns

press-event :
    (ev_key now last_press : ℕ)
    → 0 < last_press
    → last_press ≤ now
    → kbdmon_event ev_key ev_key 1 now last_press ≡ (now, some (pos ((now - last_press) / 1000)))
unfolding kbdmon_event
press-event ev_key now last_press h le = ground arith

presses_from :
    (ev_key last_press : ℕ) (times : List ℕ)
    → 0 < last_press
    → Rising last_press times
    → presses ev_key last_press times ≡ as_ints (gaps last_press times)
unfolding presses
presses_from ev_key last_press [] h r = refl
presses_from ev_key last_press (now ∷ times) h r = rw (press-event ev_key now last_press h r.0) (
    ap (λ ds. pos ((now - last_press) / 1000) ∷ ds)
      (presses_from ev_key now times (omega (arith, r.0)) r.1))

first-event : (ev_key now : ℕ) → kbdmon_event ev_key ev_key 1 now 0 ≡ (now, none)
unfolding kbdmon_event
first-event ev_key now = ground arith

-- Of key presses at times that never fall, the first not at time 0, the first is logged with
-- nothing, and each other one with the whole microseconds since the press before it.
pub presses_lem :
    (ev_key first : ℕ) (times : List ℕ)
    → 0 < first
    → Rising first times
    → presses ev_key 0 (first ∷ times) ≡ as_ints (gaps first times)
unfolding presses
presses_lem ev_key first times h r =
    rw (first-event ev_key first) (presses_from ev_key first times h r)
