-- ===== src/Gpio/Tests.antt =====
-- The GPIO functions at concrete inputs.
use linux_app_samp.Base.{length, codes, dec, pad, pos, ◌≤◌, ◌<◌, ◌≡◌, refl, ◌↔◌, true, [], arith}
use linux_app_samp.Os.Files.{path_of}
use linux_app_samp.Os.Sample.{next_fd, sample_os, failing_os, sample_os-FreshOpen}
use linux_app_samp.Gpio.Paths.{in_gpio, out_gpio, gpio_path, sysfs_path, max_buf, gpio_path_names}
use linux_app_samp.Gpio.Calls.{
  dir_in, edge_rising, read_level, gpio_export, gpio_set_direction, gpio_set_edge, gpio_set_value,
  gpio_get_value, gpio_get_hi_low,
}
use linux_app_samp.Gpio.Descriptors.{gpio_calls_close}
use linux_app_samp.Gpio.Effects.{to_bool, gpio_get_hi_low-eq}

led_path : gpio_path out_gpio (codes "value") ≡ codes "/sys/class/gpio/gpio47/value"
unfolding gpio_path pad dec
led_path = refl

blank_path : gpio_path 7 (codes "edge") ≡ codes "/sys/class/gpio/gpio 7/edge"
unfolding gpio_path pad dec
blank_path = refl

switch_high : (gpio_get_value (sample_os b'1') in_gpio []).0 ≡ pos 1
unfolding gpio_get_value read_level next_fd
switch_high = refl

-- A switch whose file cannot be opened reads as high.
unreadable_high : (gpio_get_hi_low failing_os in_gpio []).0 ≡ true
unfolding gpio_get_hi_low
unreadable_high = refl

gpio_calls_close_example :
    let os = sample_os b'1' in
    (path_of (gpio_export os 51 []).1 (pos 0) ≡ path_of [] (pos 0))
    × (path_of (gpio_set_direction os 51 dir_in []).1 (pos 0) ≡ path_of [] (pos 0))
    × (path_of (gpio_set_edge os 51 edge_rising []).1 (pos 0) ≡ path_of [] (pos 0))
    × (path_of (gpio_set_value os 51 1 []).1 (pos 0) ≡ path_of [] (pos 0))
    × (path_of (gpio_get_value os 51 []).1 (pos 0) ≡ path_of [] (pos 0))
    × (path_of (gpio_get_hi_low os 51 []).1 (pos 0) ≡ path_of [] (pos 0))
gpio_calls_close_example =
    gpio_calls_close (sample_os b'1') (sample_os-FreshOpen b'1') 51 1 dir_in edge_rising [] (pos 0)

gpio_get_hi_low-eq_example :
    gpio_get_hi_low failing_os 51 []
    ≡ (to_bool (gpio_get_value failing_os 51 []).0, (gpio_get_value failing_os 51 []).1)
gpio_get_hi_low-eq_example = gpio_get_hi_low-eq failing_os 51 []

gpio_path_names_example :
    ((gpio_path 7 (codes "edge") ≡ sysfs_path 7 (codes "edge")) ↔ (10 ≤ 7))
    × (length (gpio_path 7 (codes "edge")) < max_buf)
gpio_path_names_example = gpio_path_names 7 (codes "edge") (omega arith) (omega arith)
