-- ===== src/Gold/Load.antt =====
-- `gold_init` and `gold_exit` of LKM/mutex_sleep_ioctl_exercise/gold_device.c: what is registered,
-- and that a failure undoes it.
use linux_kernel_modules.Base.{[], ◌∷◌, ℤ, pos, negsuc, if◌then◌else◌, not, ◌≡◌, arith}
use linux_kernel_modules.Kernel.{
  Env, Trace, Done, done, alloc_chrdev_region, unregister_chrdev_region, cdev_add, cdev_del,
  class_create, class_destroy, device_create, device_destroy, mutex_init, init_waitqueue_head,
  is_zero, is_err, ptr_err, region, cdev, class, node, held, NeverNull,
}

-- The labels of the error path; each falls through to the next.
abbrev pub err_unregister : ℤ → Trace → Done
err_unregister ret t = done ret (unregister_chrdev_region ∷ t)

abbrev pub err_cdev : ℤ → Trace → Done
err_cdev ret t = err_unregister ret (cdev_del ∷ t)

abbrev pub err_class : ℤ → Trace → Done
err_class ret t = err_cdev ret (class_destroy ∷ t)

unfoldable pub gold_init : Env → Done
gold_init env =
    let t1 : Trace = alloc_chrdev_region ∷ [] in
    let t2 : Trace = cdev_add ∷ t1 in
    let t3 : Trace = class_create ∷ t2 in
    let t4 : Trace = device_create ∷ t3 in
    if not (is_zero (env.ret alloc_chrdev_region))
    then done (env.ret alloc_chrdev_region) t1
    else if not (is_zero (env.ret cdev_add))
    then err_unregister (env.ret cdev_add) t2
    else if is_err (env.ptr class_create)
    then err_cdev (ptr_err (env.ptr class_create)) t3
    else if is_err (env.ptr device_create)
    then err_class (negsuc 11) t4
    else done (pos 0) (init_waitqueue_head ∷ init_waitqueue_head ∷ mutex_init ∷ t4)

unfoldable pub gold_exit : Trace → Trace
gold_exit t = unregister_chrdev_region ∷ cdev_del ∷ class_destroy ∷ device_destroy ∷ t

-- `gold_init` returns 0 and holds its four registrations, or returns an error and holds nothing;
-- and `gold_exit` after it leaves nothing held. For a kernel whose pointer calls never return NULL.
pub gold_init_balanced :
    (env : Env)
    → NeverNull env
    → let r = gold_init env in
      (held env r.trace ≡ (if is_zero r.ret then node ∷ class ∷ cdev ∷ region ∷ [] else []))
      × (held env (gold_exit (gold_init env).trace) ≡ [])
unfolding gold_init gold_exit
gold_init_balanced env nn = ground (arith, nn class_create, nn device_create)
