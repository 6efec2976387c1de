-- ===== src/Wait/Start.antt =====
-- What the four programs have in common: the GPIO set-up at the start of `main`.
use linux_app_samp.Base.{if◌then◌else◌, Bytes, codes, ℤ, Bool, true, false, ◌∷◌}
use linux_app_samp.Os.{Os, Io, printed}
use linux_app_samp.Gpio.Paths.{in_gpio, out_gpio}
use linux_app_samp.Gpio.Calls.{dir_in, dir_out, gpio_export, gpio_set_direction}
use linux_app_samp.Panel.Tasks.{is_ok}

-- `if (call != RET_OK …) { printf(line); return; }`: false if `main` returns.
abbrev pub require : Io ℤ → Bytes → Io Bool → Io Bool
require call line rest h =
    let (r, h') = call h in if is_ok r then rest h' else (false, printed line ∷ h')

abbrev pub not_found : Bytes
not_found = codes "gpio not found\n"

abbrev pub dir_fail : Bytes
dir_fail = codes "gpio dir set fail\n"

abbrev pub success : Io Bool
success h = (true, h)

-- Both GPIOs are exported, then both get their direction; `||` stops at the first that fails.
unfoldable pub set_up : Os → Io Bool
set_up os = require (gpio_export os out_gpio) not_found (
    require (gpio_export os in_gpio) not_found (
      require (gpio_set_direction os out_gpio dir_out) dir_fail
        (require (gpio_set_direction os in_gpio dir_in) dir_fail success)))
