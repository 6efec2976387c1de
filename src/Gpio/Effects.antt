-- ===== src/Gpio/Effects.antt =====
-- What the GPIO functions write, and what they read.
use linux_app_samp.Base.{
  if◌then◌else◌, list_eq, Bytes, codes, dec, pad, value, ℤ, pos, ℕ, zero, ◌≡◌, refl, inl, inr, Bool,
  true, false, some, ◌++◌, arith,
}
use linux_app_samp.Base.Int.{is_neg}
use linux_app_samp.Os.{Os, Io, Log}
use linux_app_samp.Os.Files.{content}
use linux_app_samp.Gpio.Paths.{export_path, gpio_path}
use linux_app_samp.Gpio.Calls.{
  Direction, Edge, direction_text, edge_text, gpio_export, gpio_set_direction, gpio_set_edge,
  gpio_set_value, gpio_get_value, gpio_get_hi_low,
}
use linux_app_samp.Gpio.Descriptors.{write_file-content, gpio_get_cases}

-- A call that fails, by a negative result, changes no file; one that succeeds writes one text to
-- one path.
abbrev pub Writes : Io ℤ → Bytes → Bytes → Type 0
Writes call path text =
    (h : Log) (to : Bytes)
    → content (call h).1 to ≡ (
        if is_neg (call h).0
        then content h to
        else if list_eq path to
        then some text
        else content h to)

-- The four calls that set something, with the paths and texts of the program.
pub each-Writes :
    (os : Os) (gpio hi : ℕ) (dir : Direction) (edge : Edge)
    → Writes (gpio_export os gpio) export_path (dec gpio)
      × Writes
          (gpio_set_direction os gpio dir)
          (gpio_path gpio (codes "direction"))
          (direction_text dir)
      × Writes (gpio_set_edge os gpio edge) (gpio_path gpio (codes "edge")) (edge_text edge)
      × Writes (gpio_set_value os gpio hi) (gpio_path gpio (codes "value")) (dec hi)
unfolding gpio_export gpio_set_direction gpio_set_edge gpio_set_value
each-Writes os gpio hi dir edge = (
  λ h to. write_file-content os _ h _ _ to,
  λ h to. write_file-content os _ h _ _ to,
  λ h to. write_file-content os _ h _ _ to,
  λ h to. write_file-content os _ h _ _ to,
)

-- The path of an attribute; `%2d` prints a number of one digit with a blank.
abbrev pub attribute_path : ℕ → Bytes → Bytes
attribute_path gpio name = codes "/sys/class/gpio/gpio" ++ (pad 2 b' ' (dec gpio) ++ name)

-- An `int` as a `bool`: everything but 0 is true.
abbrev pub to_bool : ℤ → Bool
to_bool (pos zero) = false
to_bool _ = true

-- `gpio_get_hiLow` makes the calls of `gpio_get_value` and returns its result as a `bool`.
pub gpio_get_hi_low-eq :
    (os : Os) (gpio : ℕ) (h : Log)
    → gpio_get_hi_low os gpio h
      ≡ (to_bool (gpio_get_value os gpio h).0, (gpio_get_value os gpio h).1)
gpio_get_hi_low-eq os gpio h = elim (gpio_get_cases os gpio h) [
  | inl (n, e, value, level) ↦ rw (value, level)
  | inr (n, byte, hi, e, value, level) ↦ rw (value, level) (ground arith)
]

-- Reading changes no file.
pub gpio_get_hi_low-content :
    (os : Os) (gpio : ℕ) (h : Log) (to : Bytes)
    → content (gpio_get_hi_low os gpio h).1 to ≡ content h to
gpio_get_hi_low-content os gpio h to = elim (gpio_get_cases os gpio h) [
  | inl (n, e, value, level) ↦ rw level (unfold content in refl)
  | inr (n, byte, hi, e, value, level) ↦ rw level (unfold content in refl)
]
