-- ===== src/Kernel.antt =====
-- The kernel calls by which the modules register and release things. What a call returns is decided
-- outside (`Env`); what a module does is the list of its calls (`Trace`, latest first); what it
-- then holds (`held`) follows from the documentation of the calls.
use linux_kernel_modules.Base.{
  ℕ, ◌+◌, ◌/◌, ◌^◌, Bool, true, false, List, [], ◌∷◌, ◌==◌, if◌then◌else◌, ℤ, pos, negsuc, ◌≢◌,
}

-- A pointer returned by the kernel; `err n` is ERR_PTR(-(n + 1)).
pub data Ptr : Type 0 where
  null object : Ptr
  err : ℕ → Ptr

abbrev pub is_null : Ptr → Bool
is_null null = true
is_null (err n) = false
is_null object = false

abbrev pub is_err : Ptr → Bool
is_err (err n) = true
is_err null = false
is_err object = false

abbrev pub is_object : Ptr → Bool
is_object object = true
is_object null = false
is_object (err n) = false

-- PTR_ERR; only an error pointer carries a number.
abbrev pub ptr_err : Ptr → ℤ
ptr_err (err n) = negsuc n
ptr_err null = pos 0
ptr_err object = pos 0

abbrev pub is_zero : ℤ → Bool
is_zero (pos n) = n == 0
is_zero (negsuc n) = false

-- `x == -1`.
abbrev pub is_minus_one : ℤ → Bool
is_minus_one (pos n) = false
is_minus_one (negsuc n) = n == 0

pub data Call : Type 0 where
  -- character devices
  alloc_chrdev_region unregister_chrdev_region cdev_add cdev_del : Call
  unregister_chrdev : (major : ℕ) → Call
  class_create class_destroy device_create device_destroy : Call
  -- GPIO lines and interrupts
  gpio_request gpio_free gpio_direction_output gpio_direction_input gpio_export gpio_unexport :
      (pin : ℕ) → Call
  gpio_set_value : (pin value : ℕ) → Call
  request_irq free_irq : Call
  -- the input subsystem
  kmalloc kzalloc kfree : Call
  input_register_handle input_unregister_handle input_open_device input_close_device : Call
  input_register_handler input_unregister_handler misc_register misc_deregister : Call
  -- locks, queues and timers
  mutex_init mutex_destroy init_waitqueue_head mod_timer del_timer_sync : Call
  -- i2c
  i2c_get_adapter i2c_put_adapter i2c_new_device i2c_unregister_device i2c_add_driver
        i2c_del_driver :
      Call

abbrev pub Trace : Type 0
Trace = List Call

-- What the kernel answers: an `int` or a pointer for each call, and the device number that
-- `alloc_chrdev_region` stores.
pub record Env : Type 0 where
  pub ret : Call → ℤ
  pub ptr : Call → Ptr
  pub dev_num : ℕ

-- What a function leaves: its return value and the calls so far.
pub record Done : Type 0 where
  pub ret : ℤ
  pub trace : Trace

abbrev pub done : ℤ → Trace → Done
done r t = record { ret = r; trace = t }

pub data Resource : Type 0 where
  region cdev class node irq memory handle opened handler misc timer adapter client driver :
      Resource
  line : (pin : ℕ) → Resource

-- A number for each resource, to compare them.
abbrev pub tag : Resource → ℕ
tag region = 0
tag cdev = 1
tag class = 2
tag node = 3
tag irq = 4
tag memory = 5
tag handle = 6
tag opened = 7
tag handler = 8
tag misc = 9
tag timer = 10
tag adapter = 11
tag client = 12
tag driver = 13
tag (line pin) = 14 + pin

abbrev pub release : Resource → List Resource → List Resource
release r [] = []
release r (x ∷ xs) = if tag r == tag x then xs else x ∷ release r xs

abbrev pub obtain : Bool → Resource → List Resource → List Resource
obtain granted r xs = if granted then r ∷ xs else xs

-- MAJOR(dev) of a device number with a minor number of 20 bits.
abbrev pub major_of : ℕ → ℕ
major_of dev = dev / 2 ^ 20

-- The effect of a call. An `int` call succeeds with 0, a pointer call with an object.
-- `unregister_chrdev(major, ...)` gives back the numbers of the major number `major`.
abbrev pub effect : Env → Call → List Resource → List Resource
effect env alloc_chrdev_region xs = obtain (is_zero (env.ret alloc_chrdev_region)) region xs
effect env unregister_chrdev_region xs = release region xs
effect env (unregister_chrdev major) xs =
    if major == major_of env.dev_num then release region xs else xs
effect env cdev_add xs = obtain (is_zero (env.ret cdev_add)) cdev xs
effect env cdev_del xs = release cdev xs
effect env class_create xs = obtain (is_object (env.ptr class_create)) class xs
effect env class_destroy xs = release class xs
effect env device_create xs = obtain (is_object (env.ptr device_create)) node xs
effect env device_destroy xs = release node xs
effect env (gpio_request pin) xs = obtain (is_zero (env.ret (gpio_request pin))) (line pin) xs
effect env (gpio_free pin) xs = release (line pin) xs
effect env request_irq xs = obtain (is_zero (env.ret request_irq)) irq xs
effect env free_irq xs = release irq xs
effect env kmalloc xs = obtain (is_object (env.ptr kmalloc)) memory xs
effect env kzalloc xs = obtain (is_object (env.ptr kzalloc)) memory xs
effect env kfree xs = release memory xs
effect env input_register_handle xs = obtain (is_zero (env.ret input_register_handle)) handle xs
effect env input_unregister_handle xs = release handle xs
effect env input_open_device xs = obtain (is_zero (env.ret input_open_device)) opened xs
effect env input_close_device xs = release opened xs
effect env input_register_handler xs = obtain (is_zero (env.ret input_register_handler)) handler xs
effect env input_unregister_handler xs = release handler xs
effect env misc_register xs = obtain (is_zero (env.ret misc_register)) misc xs
effect env misc_deregister xs = release misc xs
effect env mod_timer xs = timer ∷ release timer xs
effect env del_timer_sync xs = release timer xs
effect env i2c_get_adapter xs = obtain (is_object (env.ptr i2c_get_adapter)) adapter xs
effect env i2c_put_adapter xs = release adapter xs
effect env i2c_new_device xs = obtain (is_object (env.ptr i2c_new_device)) client xs
effect env i2c_unregister_device xs = release client xs
effect env i2c_add_driver xs = obtain (is_zero (env.ret i2c_add_driver)) driver xs
effect env i2c_del_driver xs = release driver xs
effect env mutex_init xs = xs
effect env mutex_destroy xs = xs
effect env init_waitqueue_head xs = xs
effect env (gpio_direction_output pin) xs = xs
effect env (gpio_direction_input pin) xs = xs
effect env (gpio_export pin) xs = xs
effect env (gpio_unexport pin) xs = xs
effect env (gpio_set_value pin value) xs = xs

abbrev pub held : Env → Trace → List Resource
held env [] = []
held env (c ∷ t) = effect env c (held env t)

-- Documented: `class_create` and `device_create` report failure by an error pointer, never NULL.
abbrev pub NeverNull : Env → Type 0
NeverNull env = (c : Call) → env.ptr c ≢ null
