-- ===== src/Gold/Poll.antt =====
-- `gold_poll` of LKM/mutex_sleep_ioctl_exercise/gold_device.c against its read and its write.
