-- ===== src/Times.antt =====
-- time_get.c, time_msecGet.c, time_set.c and app_02dispTime_reboot.c: the time of day as a text, and set.
pub mod Programs
pub mod Texts
mod Tests
