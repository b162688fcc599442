-- ===== src/Lines/Lcd/Load.antt =====
-- `ModuleInit` and `ModuleExit` of LKM/GPIO_LCD/LKM_lcd.c.
use mathlib.Core.Option.{some-injective}
use linux_kernel_modules.Base.{
  ℕ, Bool, true, false, List, [], ◌∷◌, ◌==◌, ◌||◌, if◌then◌else◌, Option, none, some, pos, negsuc,
  ◌≡◌, refl, arith, ap, Bool-cases, inl, inr,
}
use linux_kernel_modules.Kernel.{
  Env, Trace, Call, Done, done, gpio_request, gpio_free, gpio_direction_output, gpio_export,
  gpio_unexport, cdev_del, is_zero,
}
use linux_kernel_modules.Kernel
use linux_kernel_modules.CharDev.Setup.{
  setup, teardown, add_error, Grants, setup-granted, registered,
}
use linux_kernel_modules.Lines.Lcd.{Level, gpios, init_screen, lcd_instruction}

-- The loop that asks for the lines: all granted, or refused with `i` at a line, when the label
-- GPIORequestError frees the lines from `i` down to 0.
pub data Asked : Type 0 where
  granted : Trace → Asked
  refused : (to_free : List ℕ) → Trace → Asked

unfoldable pub request_lines : Env → List ℕ → List ℕ → Trace → Asked
request_lines env [] upto t = granted t
request_lines env (p ∷ ps) upto t =
    let rest = request_lines env ps (p ∷ upto) (gpio_request p ∷ t) in
    if is_zero (env.ret (gpio_request p)) then rest else refused (p ∷ upto) (gpio_request p ∷ t)

-- The loop of GPIORequestError.
unfoldable pub free_lines : List ℕ → Trace → Trace
free_lines [] t = t
free_lines (p ∷ ps) t = free_lines ps (gpio_free p ∷ t)

-- The loop that makes the lines outputs; the Boolean says that all went well.
unfoldable pub direct_lines : Env → List ℕ → Trace → Bool × Trace
direct_lines env [] t = (true, t)
direct_lines env (p ∷ ps) t =
    let rest = direct_lines env ps (gpio_direction_output p ∷ t) in
    if is_zero (env.ret (gpio_direction_output p))
    then rest
    else (false, gpio_direction_output p ∷ t)

abbrev pub export_lines : List ℕ → Trace → Trace
export_lines [] t = t
export_lines (p ∷ ps) t = export_lines ps (gpio_export p ∷ t)

abbrev pub set_levels : List Level → Trace → Trace
set_levels [] t = t
set_levels (l ∷ ls) t = set_levels ls (Kernel.gpio_set_value l.pin l.value ∷ t)

abbrev pub downward : List ℕ
downward = 66 ∷ 68 ∷ 69 ∷ 44 ∷ 45 ∷ 26 ∷ 23 ∷ 46 ∷ 47 ∷ 65 ∷ 27 ∷ []

-- What follows the four registrations.
unfoldable pub lines_part : Env → Trace → Done
unfolding request_lines free_lines direct_lines init_screen
lines_part env t = elim (request_lines env gpios [] t) [
  | refused to_free t' ↦ add_error env (free_lines to_free (cdev_del ∷ t'))
  | granted t' ↦
      let d = direct_lines env gpios t' in
      if d.0
      then done (pos 0) (set_levels init_screen (export_lines gpios d.1))
      else add_error env (free_lines downward (cdev_del ∷ d.1))
]

unfoldable pub module_init : Env → Done
unfolding lines_part
module_init env = setup env (lines_part env)

abbrev pub drop_lines : List ℕ → Trace → Trace
drop_lines [] t = t
drop_lines (p ∷ ps) t =
    drop_lines ps (gpio_free p ∷ gpio_unexport p ∷ Kernel.gpio_set_value p 0 ∷ t)

unfoldable pub module_exit : Env → Trace → Trace
unfolding lcd_instruction
module_exit env t = teardown env (drop_lines gpios (set_levels (lcd_instruction 1) t))

-- The first line that the kernel refuses.
abbrev pub first_refused : Env → List ℕ → Option ℕ
first_refused env [] = none
first_refused env (p ∷ ps) =
    if is_zero (env.ret (gpio_request p)) then first_refused env ps else some p

-- Whether a call frees a line.
abbrev pub is_free_of : ℕ → Call → Bool
is_free_of p (gpio_free q) = p == q
is_free_of p _ = false

abbrev pub frees : ℕ → Trace → Bool
frees p [] = false
frees p (c ∷ t) = is_free_of p c || frees p t

frees-free_lines :
    (p : ℕ) (ps : List ℕ) (t : Trace) → frees p t ≡ true → frees p (free_lines ps t) ≡ true
unfolding free_lines
frees-free_lines p [] t h = h
frees-free_lines p (q ∷ ps) t h = frees-free_lines p ps (gpio_free q ∷ t) (ground arith)

-- Where the loop stops, the line that was refused is the first to be freed.
request_lines-refused :
    (env : Env) (ps upto : List ℕ) (t : Trace) (p : ℕ)
    → first_refused env ps ≡ some p
    → (below : List ℕ) × (t' : Trace) × (request_lines env ps upto t ≡ refused (p ∷ below) t')
unfolding request_lines
request_lines-refused env [] upto t p h = cc
request_lines-refused env (q ∷ ps) upto t p h =
    elim (Bool-cases (is_zero (env.ret (gpio_request q)))) [
      | inl e ↦ rw e (request_lines-refused env ps (q ∷ upto) (gpio_request q ∷ t) p (rw e at h))
      | inr e ↦ rw e (
        upto,
        gpio_request q ∷ t,
        ap (λ k. refused (k ∷ upto) (gpio_request q ∷ t)) (some-injective q p (rw e at h)),
      )
    ]

lines_part-refused :
    (env : Env) (t : Trace) (p : ℕ)
    → first_refused env gpios ≡ some p
    → ((lines_part env t).ret ≡ negsuc 0) × (frees p (lines_part env t).trace ≡ true)
unfolding lines_part
lines_part-refused env t p h =
    let (below, t', e) = request_lines-refused env gpios [] t p h in
    rw (e, lines_part) (refl, frees-free_lines p below (gpio_free p ∷ cdev_del ∷ t') (ground arith))

-- When the kernel refuses a line, `ModuleInit` fails, and on its way out it frees the very line that
-- it was refused.
pub refused_line_is_freed :
    (env : Env) (p : ℕ)
    → Grants env
    → first_refused env gpios ≡ some p
    → ((module_init env).ret ≡ negsuc 0) × (frees p (module_init env).trace ≡ true)
unfolding module_init
refused_line_is_freed env p g h =
    rw (setup-granted env (lines_part env) g) (lines_part-refused env registered p h)
