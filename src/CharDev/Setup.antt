-- ===== src/CharDev/Setup.antt =====
-- The four registrations at the head of `ModuleInit`, and the labels of its error path, as in
-- LKM/chrdev_alone/chrdev_mouette.c.
use linux_kernel_modules.Base.{
  [], ◌∷◌, pos, negsuc, is_neg, if◌then◌else◌, ◌≡◌, ◌≢◌, arith, true, false, ◌==◌,
}
use linux_kernel_modules.Kernel.{
  Env, Trace, Done, done, alloc_chrdev_region, unregister_chrdev, cdev_add, cdev_del, class_create,
  class_destroy, device_create, device_destroy, is_err, is_null, object, is_minus_one, region, cdev,
  class, node, held, major_of,
}

module _ (env : Env) where
  -- `unregister_chrdev(my_device_number, ...)` is given the device number, not its major number.
  abbrev pub class_error : Trace → Done
  class_error t = done (negsuc 0) (unregister_chrdev env.dev_num ∷ t)

  abbrev pub file_error : Trace → Done
  file_error t = class_error (class_destroy ∷ t)

  abbrev pub add_error : Trace → Done
  add_error t = file_error (device_destroy ∷ t)

  -- `rest` is what the module does behind the four.
  abbrev pub setup : (Trace → Done) → Done
  setup rest =
      let t1 : Trace = alloc_chrdev_region ∷ [] in
      let t2 : Trace = class_create ∷ t1 in
      let t3 : Trace = device_create ∷ t2 in
      let t4 : Trace = cdev_add ∷ t3 in
      if is_neg (env.ret alloc_chrdev_region)
      then done (negsuc 0) t1
      else if is_null (env.ptr class_create)
      then class_error t2
      else if is_null (env.ptr device_create)
      then file_error t3
      else if is_minus_one (env.ret cdev_add)
      then add_error t4
      else rest t4

  -- The four calls that `ModuleExit` ends with.
  abbrev pub teardown : Trace → Trace
  teardown t = unregister_chrdev env.dev_num ∷ class_destroy ∷ device_destroy ∷ cdev_del ∷ t

-- The kernel grants all four registrations.
pub record Grants (env : Env) : Type 0 where
  pub number : env.ret alloc_chrdev_region ≡ pos 0
  pub class : env.ptr class_create ≡ object
  pub node : env.ptr device_create ≡ object
  pub cdev : env.ret cdev_add ≡ pos 0

-- The calls so far when the module's own part begins.
abbrev pub registered : Trace
registered = cdev_add ∷ device_create ∷ class_create ∷ alloc_chrdev_region ∷ []

pub setup-granted :
    (env : Env) (rest : Trace → Done) → Grants env → setup env rest ≡ rest registered
setup-granted env rest g = rw (g.number, g.class, g.node, g.cdev)

pub not_major : (env : Env) → env.dev_num ≢ 0 → (env.dev_num == major_of env.dev_num) ≡ false
not_major env h = ground arith

-- `ModuleInit` and `ModuleExit` of chrdev_mouette.c.
unfoldable pub module_init : Env → Done
module_init env = setup env (λ t. done (pos 0) t)

unfoldable pub module_exit : Env → Trace → Trace
module_exit env t = teardown env t

-- With every registration granted, `ModuleInit` returns 0 holding the four, and `ModuleExit` gives
-- back all but the device number: a device number that is not 0 is not its own major number.
pub module_exit_leaks_region :
    (env : Env)
    → Grants env
    → env.dev_num ≢ 0
    → let r = module_init env in
      (r.ret ≡ pos 0)
      × (held env r.trace ≡ cdev ∷ node ∷ class ∷ region ∷ [])
      × (held env (module_exit env (module_init env).trace) ≡ region ∷ [])
unfolding module_init module_exit
module_exit_leaks_region env g h = ground (arith, not_major env h)

-- A failure of `class_create` that comes as an error pointer is not noticed: `ModuleInit` goes on,
-- and returns 0 with no class, and with no device file when `device_create` fails on it in turn.
pub error_pointer_unnoticed :
    (env : Env)
    → env.ret alloc_chrdev_region ≡ pos 0
    → is_err (env.ptr class_create) ≡ true
    → is_err (env.ptr device_create) ≡ true
    → env.ret cdev_add ≡ pos 0
    → let r = module_init env in (r.ret ≡ pos 0) × (held env r.trace ≡ cdev ∷ region ∷ [])
unfolding module_init
error_pointer_unnoticed env a c d k = ground arith
