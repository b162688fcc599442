-- ===== src/Fixed/Load.antt =====
-- Loading and unloading fixed_device.c and buggy_device.c of LKM/mutex_sleep_ioctl_exercise.
use linux_kernel_modules.Base.{[], ◌∷◌, pos, negsuc, is_neg, if◌then◌else◌, not, ◌≡◌, arith, refl}
use linux_kernel_modules.Kernel.{
  Env, Trace, Done, done, Call, alloc_chrdev_region, unregister_chrdev_region, cdev_add, cdev_del,
  class_create, class_destroy, device_create, device_destroy, init_waitqueue_head, is_zero, is_err,
  ptr_err, region, cdev, class, node, held, NeverNull, mutex_init, mutex_destroy, obtain, is_object,
}

unfoldable pub fixed_init : Env → Done
fixed_init env =
    let t1 : Trace = alloc_chrdev_region ∷ [] in
    let t2 : Trace = cdev_add ∷ t1 in
    let t3 : Trace = class_create ∷ t2 in
    let t4 : Trace = device_create ∷ t3 in
    if is_neg (env.ret alloc_chrdev_region)
    then done (env.ret alloc_chrdev_region) t1
    else if is_neg (env.ret cdev_add)
    then done (env.ret cdev_add) (unregister_chrdev_region ∷ t2)
    else if is_err (env.ptr class_create)
    then done (ptr_err (env.ptr class_create)) (unregister_chrdev_region ∷ cdev_del ∷ t3)
    else if is_err (env.ptr device_create)
    then done (negsuc 11) (unregister_chrdev_region ∷ cdev_del ∷ class_destroy ∷ t4)
    else done (pos 0) (init_waitqueue_head ∷ t4)

unfoldable pub fixed_exit : Trace → Trace
fixed_exit t = unregister_chrdev_region ∷ cdev_del ∷ class_destroy ∷ device_destroy ∷ t

-- Documented: an `int` call returns 0 or a negative error number.
abbrev pub ZeroOrNeg : Env → Type 0
ZeroOrNeg env = (c : Call) → is_zero (env.ret c) ≡ not (is_neg (env.ret c))

-- `fixed_init` returns 0 and holds its four registrations, or returns an error and holds nothing;
-- and `fixed_exit` after it leaves nothing held. For a kernel whose pointer calls never return NULL
-- and whose other calls return 0 or a negative number.
pub fixed_init_balanced :
    (env : Env)
    → NeverNull env
    → ZeroOrNeg env
    → let r = fixed_init env in
      (held env r.trace ≡ (if is_zero r.ret then node ∷ class ∷ cdev ∷ region ∷ [] else []))
      × (held env (fixed_exit (fixed_init env).trace) ≡ [])
unfolding fixed_init fixed_exit
fixed_init_balanced env nn zn =
    ground (arith, nn class_create, nn device_create, zn alloc_chrdev_region, zn cdev_add)

-- `buggy_init` and `buggy_exit` of LKM/mutex_sleep_ioctl_exercise/buggy_device.c: no return value is
-- looked at.
unfoldable pub buggy_init : Env → Done
buggy_init env = done (pos 0) (
    init_waitqueue_head ∷ mutex_init ∷ device_create ∷ class_create ∷ cdev_add ∷ alloc_chrdev_region
    ∷ [])

unfoldable pub buggy_exit : Trace → Trace
buggy_exit t =
    mutex_destroy ∷ unregister_chrdev_region ∷ cdev_del ∷ class_destroy ∷ device_destroy ∷ t

-- `buggy_init` returns 0 and holds whatever was granted; `buggy_exit` leaves nothing.
pub buggy_init_blind :
    (env : Env)
    → let t = (buggy_init env).trace in
      ((buggy_init env).ret ≡ pos 0)
      × (held env t
          ≡ obtain (is_object (env.ptr device_create)) node (
              obtain (is_object (env.ptr class_create)) class (
                obtain
                  (is_zero (env.ret cdev_add))
                  cdev
                  (obtain (is_zero (env.ret alloc_chrdev_region)) region []))))
      × (held env (buggy_exit (buggy_init env).trace) ≡ [])
unfolding buggy_init buggy_exit
buggy_init_blind env = (refl, refl, ground arith)
