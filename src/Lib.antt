-- ===== src/Lib.antt =====
-- Verification of the kernel modules under LKM.
--
-- The repository is a collection of Linux kernel modules for teaching: character devices, GPIO
-- drivers, keyboard monitors, a benchmark and a /proc monster. Each module stands alone; what they
-- share are the calls of the kernel. The development models the modules one by one.
--
-- Base          names of the libraries, lists and integers over the native numbers, Boolean tests,
--               the return values of the handlers
-- Window        n consecutive slots of a circular buffer, for the two rings below
-- UserCopy      what copy_from_user leaves in a buffer
-- Text          numbers in decimal, written and read back
-- Delivery      deliveries in order, of which some may be lost
-- Waiting       processes that sleep in wait_event_interruptible on one queue, for any device
-- Mutex         handlers statement by statement, with the mutex that they take
-- Kernel        the calls by which a module registers and releases things, and what it then holds
-- Gold          LKM/mutex_sleep_ioctl_exercise/gold_device.c. Device: gold_read, gold_write,
--               gold_poll, gold_ioctl, gold_open, gold_release. Queue: the FIFO that it promises.
--               Refine: that it keeps the promise. View: rings up to what calls can tell apart.
--               Poll: gold_poll. Threads: processes interleaved at the mutex (Threads/Ledger: where
--               the bytes went; Threads/Crowd: two readers). Wakeups: the same
--               with the wait queues, and wake-ups as steps of their own. Bytes: processes byte by
--               byte, with the test of the wait between any two. Locking: the handlers statement
--               by statement. Load: gold_init, gold_exit
-- Fixed         fixed_device.c of the same directory (Device, Laws, Runs, Load), the box for one
--               message that it promises (Mailbox, Refine), the messages through it (Order), its
--               wait queue (Wakeups), its handlers statement by statement (Locking), stress_test.c
--               on it (Stress: single calls; Stress/Program: the threads, as main starts them), and
--               buggy_device.c, which it corrects (Buggy, Load)
-- Files         the tables by which the kernel finds the handlers of the character devices, their
--               open and release
-- Keyboard      LKM/Keyboard_monitor. Ring: push_event and kbdmon_read of kbdmon_chrdev.c, with a
--               reader whose wait and lock others may come between (Ring/OneReader) and
--               kbdmon_chrdev_demo.c (Ring/Demo); Ring/Readers: many readers. Names, Sequence,
--               Timing, Logger: kbdmon_event of kbdmon.c, kbdmon_sequence_detector.c,
--               kbdmon_timing.c and kbdmon_keylogger.c; Logger/Sent: what the key logger sends
--               over time. Match: which devices they are offered. Handle: connection and loading.
--               Drivers: what each file hands to the input core. Lifecycle: loads, keyboards that
--               come and go, unloads
-- Crypto        LKM/crypto_challenge/crypto_challenge.c: sample_fn (Sampling), compute_score
--               (Score), control_fn (Control; Clock: its test of jiffies), start_worker and
--               stop_worker (Worker), worker_fn and do_crypto (Worker/Loop), mod_init and mod_exit
--               (Load), stats_read (Stats). Threads: worker_fn, control_fn and the timer
--               interleaved; Threads/Shown: what the file then shows
-- Monster       LKM/Pocket_monster/pocket_monster.c; Show: monster_proc_show
-- CharDev       LKM/chrdev_alone, chrdev_read_write, chrdev_mutex, chrdev_sleepy (Sleepy; its
--               queue: Sleepy/Wakeups), memory_leak and the loading of i2c_24LC256 and
--               i2c_MCP9801, with their driver_read (Thermometer) and what they send over the bus
--               (Transfers; Transfers/Eeprom: what comes back). The programs leak_demo.c
--               (Leaky/Demo) and rwtodev.c (Message/Client; Message/Exclusive: many at a time) on
--               their devices. Leaky/Resized: memory_leak with its parameter written at
--               any time, from its load on
-- Lines         LKM/GPIO (Led; Led/Client: a client that writes a text), LKM/GPIO_irq (Button),
--               LKM/GPIO_LCD (Lcd; Load: its ModuleInit; Display: what the display reads from the
--               pins)
-- Pages         LKM/kmalloc_vs_vmalloc/kmalloc_vs_vmalloc.c: fragment_memory and demo_exit; Run:
--               run_test and demo_init; Unload: the parameters written in between; Zones:
--               print_all_zones
-- Tests         the theorems at concrete inputs
--
-- How the code is modelled. The static variables of a module are a record; a handler is a function
-- from the arguments of the call and the record to the new record, what reaches user memory and
-- the return value. Whether a signal arrives, whether user memory can be read or written and what
-- the kernel's calls return comes from outside, and is an argument. A handler that sleeps returns
-- none, or, where processes interleave, leaves its process on the wait queue. A handler that takes
-- a lock is one step from the lock to its release; for gold_device.c and fixed_device.c this step
-- is also taken apart, statement by statement, and for gold_device.c also with other processes
-- between the rounds of its loops. Where the code takes no lock, its parts are steps of their own:
-- the key logger's timer (Logger/Sent) and the end of the benchmark (Crypto/Threads). Loading and
-- unloading are lists of calls; what is held after them follows from the documentation of the
-- calls, which Kernel writes down once for all modules (a call that fails gives nothing, a release
-- gives back one thing of its kind).
--
-- Numbers. Sizes and indices are natural numbers: the sizes in question stay below 2^16, so that
-- no sum of the code wraps, except in the score, which is computed modulo 2^64 as in the code, from
-- differences of temperatures that wrap as an `int` of 32 bits. The
-- characters cut from a key code, the age of the monster, the order of half a block and the fields
-- of a key event wrap as their types do. Every loop of the code is recursion on what is left to
-- do. A client that reads a file to its end has fuel, of which one more than the bytes that are
-- left is enough. A number of a text has 20 digits at most, which hold every 64-bit integer.
--
-- Parameters. The crypto library's cipher, time_after with HZ, the EEPROM on the bus and the
-- matching of the input core are parameters; the last three come with what is documented of them
-- as hypotheses, which a value in Tests meets. A long has 32 bits, as on the board.
--
-- Not modelled: HelloWorld, which only logs; logging and delays, but for the pause that the EEPROM
-- needs; the tables of the two files under /proc, whose handlers the kernel provides but for the
-- one that writes the text.
pub mod Base
pub mod Window
pub mod UserCopy
pub mod Kernel
pub mod Text
pub mod CharDev
pub mod Delivery
pub mod Waiting
pub mod Crypto
pub mod Files
pub mod Fixed
pub mod Gold
pub mod Keyboard
pub mod Lines
pub mod Mutex
pub mod Monster
pub mod Pages
pub mod Tests
