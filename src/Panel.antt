-- ===== src/Panel.antt =====
-- app_01timerOut.c and gpio_ledTask_swTask.c: a switch starts and stops the printing of the time, and an LED shows which.
pub mod Debounce
pub mod Windows
pub mod Fields
pub mod DateTime
pub mod Tasks
pub mod Flag
pub mod Led
pub mod Plain
mod Tests
