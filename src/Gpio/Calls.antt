-- ===== src/Gpio/Calls.antt =====
-- The GPIO functions.
use linux_app_samp.Base.{
  ◌==◌, if◌then◌else◌, Bytes, codes, dec, ℤ, pos, ℕ, Bool, true, Option, none, some, ◌∷◌,
}
use linux_app_samp.Base.Int.{is_neg}
use linux_app_samp.Os.{
  Os, Io, pure, ◌>>=◌, ◌>>◌, emit, rdonly, wronly, sys_open, sys_read, sys_local, wrote, closed,
  printed,
}
use linux_app_samp.Gpio.Paths.{export_path, gpio_path}

pub data Direction : Type 0 where
  dir_in dir_out : Direction

pub data Edge : Type 0 where
  edge_rising edge_falling : Edge

unfoldable pub direction_text : Direction → Bytes
direction_text dir_out = codes "out"
direction_text dir_in = codes "in"

unfoldable pub edge_text : Edge → Bytes
edge_text edge_rising = codes "rising"
edge_text edge_falling = codes "falling"

-- `if (fd < 0) return fd;`
abbrev pub if_open : ℤ → Io ℤ → Io ℤ
if_open fd rest = if is_neg fd then pure fd else rest

-- A line printed, where the function prints one.
abbrev pub announce : Option Bytes → Io (Unit {0})
announce none h = (tt, h)
announce (some line) h = (tt, printed line ∷ h)

module _ (os : Os) where
  -- What the functions that write have in common: open, give up if that fails, write a text and
  -- close. The results of `write` and `close` are not looked at.
  unfoldable pub write_file : Bytes → Option Bytes → Bytes → Io ℤ
  write_file path line bytes = do
    fd ← sys_open os path wronly
    if_open fd (do announce line; emit (wrote fd bytes); emit (closed fd); pure (pos 0))

  unfoldable pub gpio_export : ℕ → Io ℤ
  gpio_export gpio = write_file export_path (some (codes "setting export ...\n")) (dec gpio)

  unfoldable pub gpio_set_direction : ℕ → Direction → Io ℤ
  gpio_set_direction gpio dir =
      write_file (gpio_path gpio (codes "direction")) (some (codes "setting direction ...\n"))
        (direction_text dir)

  unfoldable pub gpio_set_edge : ℕ → Edge → Io ℤ
  gpio_set_edge gpio edge =
      write_file (gpio_path gpio (codes "edge")) (some (codes "setting edge ...\n"))
        (edge_text edge)

  unfoldable pub gpio_set_value : ℕ → ℕ → Io ℤ
  gpio_set_value gpio hi = write_file (gpio_path gpio (codes "value")) none (dec hi)

  -- `if (code == '1')`, after a read into the local `code` and a close
  unfoldable pub read_level : ℤ → Io Bool
  read_level fd = do
    junk ← sys_local os
    code ← sys_read os fd junk
    emit (closed fd)
    pure (code == b'1')

  unfoldable pub gpio_get_value : ℕ → Io ℤ
  gpio_get_value gpio = do
    fd ← sys_open os (gpio_path gpio (codes "value")) rdonly
    if_open fd (do hi ← read_level fd; pure (if hi then pos 1 else pos 0))

  -- The function returns a `bool`: the negative `fd` of its error path becomes true.
  unfoldable pub gpio_get_hi_low : ℕ → Io Bool
  gpio_get_hi_low gpio = do
    fd ← sys_open os (gpio_path gpio (codes "value")) rdonly
    if is_neg fd then pure true else read_level fd
