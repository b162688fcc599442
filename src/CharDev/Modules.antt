-- ===== src/CharDev/Modules.antt =====
-- `ModuleInit` and `ModuleExit` of the modules whose file operations are in CharDev, each behind the
-- registrations of CharDev.Setup.
use linux_kernel_modules.Base.{[], ◌∷◌, pos, if◌then◌else◌, ◌≡◌, ◌≢◌, arith, negsuc}
use linux_kernel_modules.Kernel.{
  Env, Trace, Done, done, cdev_del, mutex_init, mutex_destroy, init_waitqueue_head, kmalloc, kfree,
  i2c_get_adapter, i2c_put_adapter, i2c_new_device, i2c_unregister_device, i2c_add_driver,
  i2c_del_driver, is_null, is_minus_one, object, held, region, cdev, class, node, adapter, client,
  driver,
}
use linux_kernel_modules.CharDev.Setup.{setup, teardown, add_error, Grants, not_major}

-- LKM/chrdev_read_write/read_write.c.
unfoldable pub read_write_init : Env → Done
read_write_init env = setup env (λ t. done (pos 0) t)

unfoldable pub read_write_exit : Env → Trace → Trace
read_write_exit env t = teardown env t

-- LKM/chrdev_mutex/read_write_mutex.c.
unfoldable pub mutex_module_init : Env → Done
mutex_module_init env = setup env (λ t. done (pos 0) (mutex_init ∷ t))

unfoldable pub mutex_module_exit : Env → Trace → Trace
mutex_module_exit env t = teardown env (mutex_destroy ∷ t)

-- LKM/chrdev_sleepy/read_write_sleepy.c.
unfoldable pub sleepy_init : Env → Done
sleepy_init env = setup env (λ t. done (pos 0) (init_waitqueue_head ∷ t))

unfoldable pub sleepy_exit : Env → Trace → Trace
sleepy_exit env t = teardown env t

-- LKM/memory_leak/buggy_leaky_device.c: the result of kmalloc is not looked at.
unfoldable pub leaky_init : Env → Done
leaky_init env = setup env (λ t. done (pos 0) (kmalloc ∷ t))

unfoldable pub leaky_exit : Env → Trace → Trace
leaky_exit env t = teardown env (kfree ∷ t)

-- The part of `ModuleInit` that the two i2c modules share, to the driver's message; the transfers
-- that follow are in Transfers.
abbrev i2c_part : Env → Trace → Done
i2c_part env t =
    let t1 : Trace = i2c_get_adapter ∷ t in
    let t2 : Trace = i2c_new_device ∷ t1 in
    let t3 : Trace = i2c_add_driver ∷ t2 in
    if is_null (env.ptr i2c_get_adapter)
    then done (pos 0) t1
    else if is_null (env.ptr i2c_new_device)
    then done (pos 0) (i2c_put_adapter ∷ t2)
    else if is_minus_one (env.ret i2c_add_driver)
    then add_error env (cdev_del ∷ t3)
    else done (pos 0) (i2c_put_adapter ∷ t3)

-- LKM/i2c_24LC256/i2c_24LC256.c.
unfoldable pub eeprom_init : Env → Done
eeprom_init env = setup env (i2c_part env)

unfoldable pub eeprom_exit : Env → Trace → Trace
eeprom_exit env t = teardown env (i2c_del_driver ∷ i2c_unregister_device ∷ t)

-- LKM/i2c_MCP9801/i2c_MCP9801.c.
unfoldable pub mcp9801_init : Env → Done
mcp9801_init env = setup env (i2c_part env)

unfoldable pub mcp9801_exit : Env → Trace → Trace
mcp9801_exit env t = teardown env (i2c_del_driver ∷ i2c_unregister_device ∷ t)

-- When the i2c driver cannot be added, `ModuleInit` of both i2c modules returns -1 and gives back
-- the device, its file and its class, but neither the i2c client nor the adapter nor the number.
pub i2c_error_leaks :
    (env : Env)
    → Grants env
    → env.dev_num ≢ 0
    → env.ptr i2c_get_adapter ≡ object
    → env.ptr i2c_new_device ≡ object
    → env.ret i2c_add_driver ≡ negsuc 0
    → ((eeprom_init env).ret ≡ negsuc 0)
      × (held env (eeprom_init env).trace ≡ client ∷ adapter ∷ region ∷ [])
      × (mcp9801_init env ≡ eeprom_init env)
unfolding eeprom_init mcp9801_init
i2c_error_leaks env g h a c d = ground (arith, not_major env h)

-- With everything granted, the i2c modules load holding their registrations, the client and the
-- driver, and unload holding the device number alone.
pub i2c_load_unload :
    (env : Env)
    → Grants env
    → env.dev_num ≢ 0
    → env.ptr i2c_get_adapter ≡ object
    → env.ptr i2c_new_device ≡ object
    → env.ret i2c_add_driver ≡ pos 0
    → ((mcp9801_init env).ret ≡ pos 0)
      × (held env (mcp9801_init env).trace ≡ driver ∷ client ∷ cdev ∷ node ∷ class ∷ region ∷ [])
      × (held env (mcp9801_exit env (mcp9801_init env).trace) ≡ region ∷ [])
unfolding mcp9801_init mcp9801_exit
i2c_load_unload env g h a c d = ground (arith, not_major env h)
