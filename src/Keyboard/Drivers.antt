-- ===== src/Keyboard/Drivers.antt =====
-- The handlers that the files of LKM/Keyboard_monitor register, under the names of each file: what
-- kbdmon.c, kbdmon_sequence_detector.c, kbdmon_timing.c and kbdmon_chrdev.c hand to the input core.
-- Their functions for connection are the same text.
use linux_kernel_modules.Kernel.{Env, Trace, Done}
use linux_kernel_modules.Keyboard.Handle.{
  kbdmon_connect, kbdmon_disconnect, kbdmon_init, kbdmon_exit, chrdev_init, chrdev_exit,
}

-- kbdmon_sequence_detector.c.
abbrev pub sequence_connect : Env → Done
sequence_connect = kbdmon_connect

abbrev pub sequence_disconnect : Trace → Trace
sequence_disconnect = kbdmon_disconnect

abbrev pub sequence_init : Env → Done
sequence_init = kbdmon_init

abbrev pub sequence_exit : Trace → Trace
sequence_exit = kbdmon_exit

-- kbdmon_timing.c.
abbrev pub timing_connect : Env → Done
timing_connect = kbdmon_connect

abbrev pub timing_disconnect : Trace → Trace
timing_disconnect = kbdmon_disconnect

abbrev pub timing_init : Env → Done
timing_init = kbdmon_init

abbrev pub timing_exit : Trace → Trace
timing_exit = kbdmon_exit

-- kbdmon_chrdev.c; its init and exit differ.
abbrev pub chrdev_connect : Env → Done
chrdev_connect = kbdmon_connect

abbrev pub chrdev_disconnect : Trace → Trace
chrdev_disconnect = kbdmon_disconnect

-- kbdmon_keylogger.c; its connect, init and exit differ.
abbrev pub keylogger_disconnect : Trace → Trace
keylogger_disconnect = kbdmon_disconnect

-- `struct input_handler`, its callbacks for connection, and the entry points of the module.
pub record Driver : Type 0 where
  pub connect : Env → Done
  pub disconnect : Trace → Trace
  pub init : Env → Done
  pub exit : Trace → Trace

-- The four modules.
pub data Variant : Type 0 where
  plain sequence_detector timing chrdev : Variant

abbrev pub driver_of : Variant → Driver
driver_of plain = record {
  connect = kbdmon_connect;
  disconnect = kbdmon_disconnect;
  init = kbdmon_init;
  exit = kbdmon_exit;
}
driver_of sequence_detector = record {
  connect = sequence_connect;
  disconnect = sequence_disconnect;
  init = sequence_init;
  exit = sequence_exit;
}
driver_of timing = record {
  connect = timing_connect;
  disconnect = timing_disconnect;
  init = timing_init;
  exit = timing_exit;
}
driver_of chrdev = record {
  connect = chrdev_connect;
  disconnect = chrdev_disconnect;
  init = chrdev_init;
  exit = chrdev_exit;
}
