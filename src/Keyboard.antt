-- ===== src/Keyboard.antt =====
-- The keyboard monitors of LKM/Keyboard_monitor, one module for each file that has a part of its own.
pub mod Ring
pub mod Handle
pub mod Drivers
pub mod Lifecycle
pub mod Sequence
pub mod Logger
pub mod Match
pub mod Names
pub mod Timing
