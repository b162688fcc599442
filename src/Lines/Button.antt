-- ===== src/Lines/Button.antt =====
-- LKM/GPIO_irq/LKM_gpio_irq.c: a button whose interrupt toggles a LED.
use linux_kernel_modules.Base.{
  ℕ, zero, suc, ◌%◌, Bool, false, not, [], ◌∷◌, ◌==◌, if◌then◌else◌, pos, negsuc, ◌≡◌, arith,
}
use linux_kernel_modules.Kernel.{
  Env, Trace, Done, done, gpio_request, gpio_free, gpio_direction_output, gpio_direction_input,
  gpio_export, gpio_unexport, gpio_set_value, request_irq, free_irq, is_zero, held, irq, line,
}

abbrev pub gpio_button : ℕ
gpio_button = 115

abbrev pub gpio_led : ℕ
gpio_led = 49

-- `ledStatus`, and the level of the LED's line.
pub record Led : Type 0 where
  pub status : Bool
  pub level : Bool

-- `gpio_irq_handler`.
unfoldable pub gpio_irq_handler : Led → Led
gpio_irq_handler s = record { status = not s.status; level = not s.status }

unfoldable pub interrupts : ℕ → Led → Led
interrupts zero s = s
interrupts (suc n) s = gpio_irq_handler (interrupts n s)

-- The LED as the module starts: off.
abbrev pub off : Led
off = record { status = false; level = false }

abbrev pub button_error : Trace → Done
button_error t = done (negsuc 0) (gpio_free gpio_led ∷ gpio_free gpio_button ∷ t)

abbrev pub led_error : Trace → Done
led_error t = done (negsuc 0) (gpio_free gpio_led ∷ t)

-- `ModuleInit`: when the LED's line is refused it goes on.
unfoldable pub module_init : Env → Done
module_init env =
    let t2 : Trace = gpio_direction_output gpio_led ∷ gpio_request gpio_led ∷ [] in
    let t3 : Trace = gpio_request gpio_button ∷ t2 in
    let t4 : Trace = gpio_direction_input gpio_button ∷ t3 in
    let t5 : Trace = request_irq ∷ gpio_export gpio_button ∷ gpio_export gpio_led ∷ t4 in
    if not (is_zero (env.ret (gpio_direction_output gpio_led)))
    then led_error t2
    else if not (is_zero (env.ret (gpio_request gpio_button)))
    then led_error t3
    else if not (is_zero (env.ret (gpio_direction_input gpio_button)))
    then button_error t4
    else if not (is_zero (env.ret request_irq))
    then button_error t5
    else done (pos 0) t5

unfoldable pub module_exit : Trace → Trace
module_exit t =
    gpio_free gpio_button
    ∷ gpio_free gpio_led
    ∷ gpio_unexport gpio_button
    ∷ gpio_unexport gpio_led
    ∷ gpio_set_value gpio_led 0
    ∷ free_irq
    ∷ t

-- After any number of interrupts the LED shows the status, and is on exactly when the number is odd.
pub interrupts_lem :
    (n : ℕ)
    → ((interrupts n off).level ≡ (interrupts n off).status)
      × ((interrupts n off).status ≡ (n % 2 == 1))
unfolding interrupts gpio_irq_handler
interrupts_lem zero = ground arith
interrupts_lem (suc n) = ground (arith, interrupts_lem n)

-- `ModuleInit` returns 0 and holds the interrupt and both lines, but for the LED's if that was
-- refused; or returns -1 and holds nothing. `ModuleExit` after it leaves nothing held.
pub button_init_balanced :
    (env : Env)
    → let r = module_init env in
      (held env r.trace ≡ (
        if is_zero r.ret
        then irq
          ∷ line gpio_button
          ∷ (if is_zero (env.ret (gpio_request gpio_led)) then line gpio_led ∷ [] else [])
        else []))
      × (held env (module_exit (module_init env).trace) ≡ [])
unfolding module_init module_exit
button_init_balanced env = ground arith
