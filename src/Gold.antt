-- ===== src/Gold.antt =====
-- LKM/mutex_sleep_ioctl_exercise/gold_device.c, a character device over a ring of 256 bytes.
pub mod Device
pub mod Inv
pub mod Reading
pub mod Writing
pub mod Queue
pub mod Refine
pub mod View
pub mod Poll
pub mod Threads
pub mod Bytes
pub mod Wakeups
pub mod Load
pub mod Locking
