-- ===== src/Wait.antt =====
-- gpio_input_poll.c, gpio_input_epoll.c, gpio_input_select.c and gpio_input_usleep.c: programs that
-- wait for a switch.
pub mod Start
pub mod Programs
pub mod Quiet
pub mod Pushes
pub mod Follow
pub mod Tests
