-- ===== src/Lines/Led.antt =====
-- LKM/GPIO/LKM_gpio.c: a button that is read and a LED that is written.
pub mod Client
use linux_kernel_modules.Base.{
  ℕ, ◌+◌, ◌-◌, List, [], ◌∷◌, ◌==◌, if◌then◌else◌, not, take, min, pos, ◌≡◌, ◌≢◌, arith, Option,
  none, some,
}
use linux_kernel_modules.Kernel.{
  Env, Trace, Done, done, gpio_request, gpio_free, gpio_direction_output, gpio_export,
  gpio_unexport, gpio_set_value, cdev_del, is_zero, held, region, cdev, class, node, line,
}
use linux_kernel_modules.CharDev.Setup.{setup, teardown, add_error, Grants, not_major}

abbrev pub gpio_led : ℕ
gpio_led = 49

-- `driver_read`: `button` is what `gpio_get_value` returns, 0 or 1; the bytes that reach the user,
-- and the return value.
unfoldable pub driver_read : (button not_copied count : ℕ) → List ℕ × ℕ
driver_read button not_copied count =
    let to_copy = min count 3 in
    (take (to_copy - not_copied) ((button + b'0') ∷ 10 ∷ 0 ∷ []), to_copy - not_copied)

-- The level that a value sets, if it is `0` or `1`.
abbrev pub level_of : ℕ → Option ℕ
level_of value = if value == b'0' then some 0 else if value == b'1' then some 1 else none

-- `driver_write`: the level that the LED is set to, if any, and the return value. `uninitialised` is
-- what `value` holds when nothing is written; a byte that cannot be read is 0.
unfoldable pub driver_write : (uninitialised not_copied : ℕ) → List ℕ → Option ℕ × ℕ
driver_write uninitialised not_copied [] = (level_of uninitialised, 0)
driver_write uninitialised not_copied (c ∷ src) =
    (level_of (if not_copied == 0 then c else 0), 1 - not_copied)

unfoldable pub module_init : Env → Done
module_init env = setup env λ t.
    let t1 : Trace = gpio_request gpio_led ∷ t in
    let t2 : Trace = gpio_direction_output gpio_led ∷ t1 in
    if not (is_zero (env.ret (gpio_request gpio_led)))
    then add_error env (cdev_del ∷ t1)
    else if not (is_zero (env.ret (gpio_direction_output gpio_led)))
    then add_error env (cdev_del ∷ gpio_free gpio_led ∷ t2)
    else done (pos 0) (gpio_export gpio_led ∷ t2)

unfoldable pub module_exit : Env → Trace → Trace
module_exit env t =
    teardown env (gpio_free gpio_led ∷ gpio_unexport gpio_led ∷ gpio_set_value gpio_led 0 ∷ t)

-- With the character device granted: `ModuleInit` returns 0 holding it and the LED's line, or -1
-- holding, like `ModuleExit` later, the device number alone.
pub led_init_balanced :
    (env : Env)
    → Grants env
    → env.dev_num ≢ 0
    → let r = module_init env in
      (held env r.trace ≡ (
        if is_zero r.ret then line gpio_led ∷ cdev ∷ node ∷ class ∷ region ∷ [] else region ∷ []))
      × (held env (module_exit env (module_init env).trace) ≡ region ∷ [])
unfolding module_init module_exit
led_init_balanced env g h = ground (arith, not_major env h)
