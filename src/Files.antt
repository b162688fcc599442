-- ===== src/Files.antt =====
-- The tables by which the kernel finds the handlers of the modules under LKM that make a device, with
-- those of open and release that other modules do not have: gold_device.c, fixed_device.c and
-- buggy_device.c of mutex_sleep_ioctl_exercise, kbdmon_chrdev.c of Keyboard_monitor, read_write.c,
-- read_write_mutex.c, read_write_sleepy.c, chrdev_mouette.c, buggy_leaky_device.c, i2c_24LC256.c,
-- i2c_MCP9801.c, LKM_gpio.c and LKM_lcd.c.
use linux_kernel_modules.Base.{Bool, true, false, Option, none, some, List, [], ◌∷◌, Ret, ok}
use linux_kernel_modules.Gold.Device.{gold_open}
use linux_kernel_modules.CharDev.Message.{driver_open}

-- What decides how an open ends: whether `kmalloc` gives memory, and whether a signal comes.
pub record Opening : Type 0 where
  pub allocated : Bool
  pub signal : Bool

pub data Operation : Type 0 where
  read write poll unlocked_ioctl : Operation

-- `struct file_operations`: whether `.owner` is THIS_MODULE, what `.open` and `.release` return,
-- where they are set, and which of the other handlers are.
pub record FileOperations : Type 0 where
  pub owner : Bool
  pub open_handler : Option (Opening → Ret)
  pub release : Option Ret
  pub handles : List Operation

-- An open, or a release, that only logs.
abbrev pub logs_open : Opening → Ret
logs_open e = ok 0

unfoldable pub gold_fops : FileOperations
gold_fops = record {
  owner = true;
  open_handler = some (λ e. (gold_open e.allocated false).1);
  release = some (ok 0);
  handles = read ∷ write ∷ poll ∷ unlocked_ioctl ∷ [];
}

unfoldable pub fixed_open : Opening → Ret
fixed_open e = ok 0

unfoldable pub fixed_release : Ret
fixed_release = ok 0

unfoldable pub fixed_fops : FileOperations
unfolding fixed_open fixed_release
fixed_fops = record {
  owner = true;
  open_handler = some fixed_open;
  release = some fixed_release;
  handles = read ∷ write ∷ unlocked_ioctl ∷ [];
}

-- `my_open` of buggy_device.c takes the mutex, and returns 0 all the same.
unfoldable pub buggy_fops : FileOperations
buggy_fops = record {
  owner = true;
  open_handler = some logs_open;
  release = some (ok 0);
  handles = read ∷ write ∷ unlocked_ioctl ∷ [];
}

unfoldable pub ring_fops : FileOperations
ring_fops = record { owner = true; open_handler = none; release = none; handles = read ∷ [] }

unfoldable pub read_write_fops : FileOperations
read_write_fops = record {
  owner = true;
  open_handler = some logs_open;
  release = some (ok 0);
  handles = read ∷ write ∷ [];
}

-- Once the mutex is free, or a signal comes.
abbrev pub waits_open : Opening → Ret
waits_open e = elim (driver_open e.signal false) [ none ↦ ok 0 | some r ↦ r.1 ]

unfoldable pub mutex_fops : FileOperations
mutex_fops = record {
  owner = true;
  open_handler = some waits_open;
  release = some (ok 0);
  handles = read ∷ write ∷ [];
}

unfoldable pub sleepy_fops : FileOperations
sleepy_fops = record {
  owner = true;
  open_handler = some logs_open;
  release = some (ok 0);
  handles = read ∷ write ∷ [];
}

unfoldable pub mouette_fops : FileOperations
mouette_fops = record { owner = true; open_handler = none; release = none; handles = [] }

unfoldable pub leaky_fops : FileOperations
leaky_fops = record {
  owner = true;
  open_handler = some logs_open;
  release = some (ok 0);
  handles = read ∷ write ∷ [];
}

unfoldable pub eeprom_fops : FileOperations
eeprom_fops = record {
  owner = true;
  open_handler = some logs_open;
  release = some (ok 0);
  handles = read ∷ [];
}

unfoldable pub mcp9801_fops : FileOperations
mcp9801_fops = record {
  owner = true;
  open_handler = some logs_open;
  release = some (ok 0);
  handles = read ∷ [];
}

unfoldable pub gpio_fops : FileOperations
gpio_fops = record {
  owner = true;
  open_handler = some logs_open;
  release = some (ok 0);
  handles = read ∷ write ∷ [];
}

unfoldable pub lcd_fops : FileOperations
lcd_fops = record {
  owner = true;
  open_handler = some logs_open;
  release = some (ok 0);
  handles = write ∷ [];
}

pub data Module : Type 0 where
  gold fixed buggy ring read_write mutex sleepy mouette leaky eeprom mcp9801 gpio lcd : Module

unfoldable pub fops_of : Module → FileOperations
unfolding gold_fops fixed_fops buggy_fops ring_fops read_write_fops mutex_fops sleepy_fops
    mouette_fops leaky_fops eeprom_fops mcp9801_fops gpio_fops lcd_fops
fops_of gold = gold_fops
fops_of fixed = fixed_fops
fops_of buggy = buggy_fops
fops_of ring = ring_fops
fops_of read_write = read_write_fops
fops_of mutex = mutex_fops
fops_of sleepy = sleepy_fops
fops_of mouette = mouette_fops
fops_of leaky = leaky_fops
fops_of eeprom = eeprom_fops
fops_of mcp9801 = mcp9801_fops
fops_of gpio = gpio_fops
fops_of lcd = lcd_fops

-- What `open` comes to: without a handler, the kernel opens the file by itself.
abbrev pub opened : FileOperations → Opening → Ret
opened t e = elim t.open_handler [ none ↦ ok 0 | some handler ↦ handler e ]
