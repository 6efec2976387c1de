-- ===== src/Gpio/Paths.antt =====
-- The paths that the GPIO functions print into `buf`.
use native.Mathlib.Decide.{dec_le}
use linux_app_samp.Base.{
  length, length-append, Bytes, get_or, codes, dec, pad, length-dec, pad_two, dec_small, pad_small,
  length-pad_le, ℕ, ◌^◌, ◌≤◌, ◌<◌, ◌≡◌, ap, ◌≢◌, ◌↔◌, ◌++◌, arith,
}

abbrev pub in_gpio : ℕ
in_gpio = 51

abbrev pub out_gpio : ℕ
out_gpio = 47

abbrev pub max_buf : ℕ
max_buf = 100

abbrev pub sysfs_gpio_dir : Bytes
sysfs_gpio_dir = codes "/sys/class/gpio"

abbrev pub export_path : Bytes
export_path = sysfs_gpio_dir ++ codes "/export"

-- `SYSFS_GPIO_DIR "/gpio%2d/…"`
unfoldable pub gpio_path : ℕ → Bytes → Bytes
gpio_path gpio attribute =
    sysfs_gpio_dir ++ (codes "/gpio" ++ (pad 2 b' ' (dec gpio) ++ (codes "/" ++ attribute)))

-- The name that the kernel gives to the file of a GPIO.
unfoldable pub sysfs_path : ℕ → Bytes → Bytes
sysfs_path gpio attribute = codes "/sys/class/gpio/gpio" ++ (dec gpio ++ (codes "/" ++ attribute))

-- From GPIO 10 on the path printed is the kernel's.
gpio_path-eq-sysfs_path :
    (gpio : ℕ) (attribute : Bytes)
    → 10 ≤ gpio
    → gpio_path gpio attribute ≡ sysfs_path gpio attribute
unfolding gpio_path sysfs_path
gpio_path-eq-sysfs_path gpio attribute h = rw (pad_two gpio h)

-- Below GPIO 10 it has a blank for the first digit, and is no path of the kernel's.
gpio_path-ne-sysfs_path :
    (gpio : ℕ) (attribute : Bytes)
    → gpio < 10
    → gpio_path gpio attribute ≢ sysfs_path gpio attribute
unfolding gpio_path sysfs_path get_or
gpio_path-ne-sysfs_path gpio attribute h e =
    ground (arith, dec_small gpio h, pad_small gpio h, ap (λ t. get_or t 20) e)

-- The path that is printed is the kernel's exactly from GPIO 10 on: below, `%2d` prints a blank.
pub gpio_path_iff :
    (gpio : ℕ) (attribute : Bytes)
    → (gpio_path gpio attribute ≡ sysfs_path gpio attribute) ↔ (10 ≤ gpio)
gpio_path_iff gpio attribute = (
  λ e. elim (dec_le 10 gpio) [
    | yes h ↦ h
    | no h ↦ absurd (gpio_path-ne-sysfs_path gpio attribute (omega arith) e)
  ],
  gpio_path-eq-sysfs_path gpio attribute,
)

-- For every GPIO that an `int` holds, and every attribute that the programs use, the path and its
-- zero fit in `buf`, so that `snprintf` cuts nothing off.
pub gpio_path_fits :
    (gpio : ℕ) (attribute : Bytes)
    → gpio < 2 ^ 31
    → length attribute ≤ 9
    → length (gpio_path gpio attribute) < max_buf
unfolding gpio_path
gpio_path_fits gpio attribute h p =
    let number : Bytes = pad 2 b' ' (dec gpio) in
    omega (
      arith,
      length-append number (codes "/" ++ attribute),
      length-pad_le 2 b' ' (dec gpio),
      length-dec gpio 9 (omega arith),
    )

-- For every GPIO that an `int` holds, and every attribute that the programs use: the path that is printed is
-- the kernel's exactly from GPIO 10 on, since below `%2d` prints a blank; and the path and its zero fit in
-- `buf`, so that `snprintf` cuts nothing off.
pub gpio_path_names :
    (gpio : ℕ) (attribute : Bytes)
    → gpio < 2 ^ 31
    → length attribute ≤ 9
    → ((gpio_path gpio attribute ≡ sysfs_path gpio attribute) ↔ (10 ≤ gpio))
      × (length (gpio_path gpio attribute) < max_buf)
gpio_path_names gpio attribute h p =
    (gpio_path_iff gpio attribute, gpio_path_fits gpio attribute h p)
