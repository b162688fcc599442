-- ===== src/CharDev.antt =====
-- The character devices that share one `ModuleInit`: LKM/chrdev_alone, chrdev_read_write,
-- chrdev_mutex, chrdev_sleepy, memory_leak, i2c_24LC256 and i2c_MCP9801 (LKM/GPIO and GPIO_LCD are
-- under Lines).
pub mod Setup
pub mod Modules
pub mod Message
pub mod Sleepy
pub mod Leaky
pub mod Thermometer
pub mod Transfers
