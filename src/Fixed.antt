-- ===== src/Fixed.antt =====
-- LKM/mutex_sleep_ioctl_exercise/fixed_device.c, a character device that keeps one message of at
-- most 128 bytes, and buggy_device.c, the version that it corrects.
pub mod Device
pub mod Laws
pub mod Mailbox
pub mod Refine
pub mod Runs
pub mod Stress
pub mod Order
pub mod Wakeups
pub mod Load
pub mod Locking
pub mod Buggy
