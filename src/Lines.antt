-- ===== src/Lines.antt =====
-- The modules that drive GPIO lines: LKM/GPIO, LKM/GPIO_irq and LKM/GPIO_LCD.
pub mod Led
pub mod Button
pub mod Lcd
