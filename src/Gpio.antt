-- ===== src/Gpio.antt =====
-- The GPIO functions that the programs share: gpio_export, gpio_set_direction, gpio_set_edge,
-- gpio_set_value and gpio_get_value of gpio_input_epoll.c (and their copies in gpio_input_poll.c,
-- gpio_input_select.c, gpio_input_usleep.c, gpio_ledTask_swTask.c and app_01timerOut.c), with
-- gpio_get_hiLow of app_01timerOut.c.
pub mod Paths
pub mod Calls
pub mod Descriptors
pub mod Effects
mod Tests
