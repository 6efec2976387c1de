-- ===== src/Elapsed.antt =====
-- time_nanosecond.c and app_03timeOfCalc.c: the time between two readings of the clock.
pub mod Calc
pub mod Props
pub mod Tests
