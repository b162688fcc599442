-- ===== src/Keyboard/Handle.antt =====
-- Connection of a device and registration of the handler, LKM/Keyboard_monitor/kbdmon.c. The text
-- of `kbdmon_connect` and `kbdmon_disconnect` is the same in kbdmon_sequence_detector.c,
-- kbdmon_timing.c and kbdmon_chrdev.c, and so is `kbdmon_init` but for the last.
use linux_kernel_modules.Base.{
  [], ◌∷◌, ℤ, pos, negsuc, if◌then◌else◌, not, ◌≡◌, arith, false, true, Option, none, some, refl,
}
use linux_kernel_modules.Kernel.{
  Env, Trace, Done, done, kzalloc, kfree, input_register_handle, input_unregister_handle,
  input_open_device, input_close_device, input_register_handler, input_unregister_handler,
  misc_register, misc_deregister, mod_timer, del_timer_sync, is_zero, is_err, is_null, is_object,
  memory, handle, opened, handler, misc, timer, held,
}

-- -ENOMEM.
abbrev pub enomem : ℤ
enomem = negsuc 11

-- The labels of the error path.
abbrev pub err_free : ℤ → Trace → Done
err_free ret t = done ret (kfree ∷ t)

abbrev pub err_unregister : ℤ → Trace → Done
err_unregister ret t = err_free ret (input_unregister_handle ∷ t)

unfoldable pub kbdmon_connect : Env → Done
kbdmon_connect env =
    let t1 : Trace = kzalloc ∷ [] in
    let t2 : Trace = input_register_handle ∷ t1 in
    let t3 : Trace = input_open_device ∷ t2 in
    if is_null (env.ptr kzalloc)
    then done enomem t1
    else if not (is_zero (env.ret input_register_handle))
    then err_free (env.ret input_register_handle) t2
    else if not (is_zero (env.ret input_open_device))
    then err_unregister (env.ret input_open_device) t3
    else done (pos 0) t3

unfoldable pub kbdmon_disconnect : Trace → Trace
kbdmon_disconnect t = kfree ∷ input_unregister_handle ∷ input_close_device ∷ t

unfoldable pub kbdmon_init : Env → Done
kbdmon_init env =
    let t : Trace = input_register_handler ∷ [] in
    if not (is_zero (env.ret input_register_handler))
    then done (env.ret input_register_handler) t
    else done (pos 0) t

unfoldable pub kbdmon_exit : Trace → Trace
kbdmon_exit t = input_unregister_handler ∷ t

-- `kbdmon_init` of kbdmon_chrdev.c: the return value of `misc_register` is not looked at.
unfoldable pub chrdev_init : Env → Done
chrdev_init env =
    let t : Trace = input_register_handler ∷ misc_register ∷ [] in
    if not (is_zero (env.ret input_register_handler))
    then done (env.ret input_register_handler) t
    else done (pos 0) t

unfoldable pub chrdev_exit : Trace → Trace
chrdev_exit t = misc_deregister ∷ input_unregister_handler ∷ t

-- `kbdmon_connect` of kbdmon_keylogger.c: it writes through the pointer of `kzalloc` unchecked
-- (`none`: a NULL pointer is written through), and looks at no return value.
unfoldable pub keylogger_connect : Env → Option Done
keylogger_connect env =
    if is_null (env.ptr kzalloc)
    then none
    else some (done (pos 0) (input_open_device ∷ input_register_handle ∷ kzalloc ∷ []))

-- `init_mod` and `exit_mod` of kbdmon_keylogger.c.
unfoldable pub keylogger_init : Env → Done
keylogger_init env = done (env.ret input_register_handler) (input_register_handler ∷ mod_timer ∷ [])

unfoldable pub keylogger_exit : Trace → Trace
keylogger_exit t = input_unregister_handler ∷ del_timer_sync ∷ t

-- `kbdmon_connect` returns 0 and holds its memory, the handle and the opened device, or returns an
-- error and holds nothing; `kbdmon_disconnect` after it leaves nothing held. For a `kzalloc` that
-- returns NULL or memory.
pub kbdmon_connect_balanced :
    (env : Env)
    → is_err (env.ptr kzalloc) ≡ false
    → let r = kbdmon_connect env in
      (held env r.trace ≡ (if is_zero r.ret then opened ∷ handle ∷ memory ∷ [] else []))
      × (held env (kbdmon_disconnect (kbdmon_connect env).trace) ≡ [])
unfolding kbdmon_connect kbdmon_disconnect
kbdmon_connect_balanced env ne = ground arith

-- When the input handler cannot be registered, `kbdmon_init` of kbdmon_chrdev.c returns the error
-- and leaves the misc device registered; when it can, `kbdmon_exit` leaves nothing.
pub chrdev_init_leaks :
    (env : Env)
    → is_zero (env.ret misc_register) ≡ true
    → let r = chrdev_init env in
      (held env r.trace ≡ (if is_zero r.ret then handler ∷ misc ∷ [] else misc ∷ []))
      × (held env (chrdev_exit (chrdev_init env).trace) ≡ [])
unfolding chrdev_init chrdev_exit
chrdev_init_leaks env m = ground arith

-- `kbdmon_connect` of kbdmon_keylogger.c returns 0 also when the handle is not registered or the
-- device not opened.
pub keylogger_connect_blind :
    (env : Env)
    → is_object (env.ptr kzalloc) ≡ true
    → is_zero (env.ret input_register_handle) ≡ false
    → is_zero (env.ret input_open_device) ≡ false
    → (r : Done) × (keylogger_connect env ≡ some r)
      × (r.ret ≡ pos 0)
      × (held env r.trace ≡ memory ∷ [])
unfolding keylogger_connect
keylogger_connect_blind env m h o = (
  done (pos 0) (input_open_device ∷ input_register_handle ∷ kzalloc ∷ []),
  ground arith,
  refl,
  ground arith,
)

-- When the handler cannot be registered, `init_mod` returns the error with the timer still set, to
-- fire into a module that is not loaded; when it can, `exit_mod` leaves nothing.
pub keylogger_init_leaks :
    (env : Env)
    → let r = keylogger_init env in
      (held env r.trace ≡ (if is_zero r.ret then handler ∷ timer ∷ [] else timer ∷ []))
      × (held env (keylogger_exit (keylogger_init env).trace) ≡ [])
unfolding keylogger_init keylogger_exit
keylogger_init_leaks env = ground arith
