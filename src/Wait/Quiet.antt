-- ===== src/Wait/Quiet.antt =====
-- The lines `pushed` of a history, and the calls of the set-up.
use linux_app_samp.Base.{
  if◌then◌else◌, Bool-cases, list_eq, Bytes, ℤ, ℕ, suc, ◌≡◌, refl, ◌∙◌, inl, inr, Bool, false, some,
  [], ◌∷◌, arith,
}
use linux_app_samp.Os.{
  Os, Io, Log, opened, has_read, wrote, rewound, closed, printed, slept, waited,
}
use linux_app_samp.Gpio.Paths.{in_gpio, out_gpio}
use linux_app_samp.Gpio.Calls.{
  dir_in, dir_out, Edge, Direction, gpio_export, gpio_set_direction, gpio_set_edge, write_file,
}
use linux_app_samp.Gpio.Descriptors.{write_file_cases}
use linux_app_samp.Panel.Tasks.{is_ok}
use linux_app_samp.Wait.Start.{set_up, require, not_found, dir_fail, success}
use linux_app_samp.Wait.Programs.{pushed_line}

-- The lines `pushed` of a history.
unfoldable pub pushes : Log → ℕ
pushes [] = 0
pushes (printed line ∷ h) = if list_eq line pushed_line then suc (pushes h) else pushes h
pushes (opened path mode fd ∷ h) = pushes h
pushes (wrote fd bytes ∷ h) = pushes h
pushes (has_read fd byte ∷ h) = pushes h
pushes (rewound fd ∷ h) = pushes h
pushes (closed fd ∷ h) = pushes h
pushes (slept usec ∷ h) = pushes h
pushes (waited ret ∷ h) = pushes h

-- The GPIO functions say nothing of pushes.
write_file-pushes :
    (os : Os) (path line bytes : Bytes) (h : Log)
    → list_eq line pushed_line ≡ false
    → pushes (write_file os path (some line) bytes h).1 ≡ pushes h
write_file-pushes os path line bytes h other = elim (write_file_cases os path h (some line) bytes) [
  | inl (n, e, run) ↦ rw run (unfold pushes in refl)
  | inr (n, e, run) ↦ rw run (unfold pushes in ground arith)
]

module _ (os : Os) (gpio : ℕ) (h : Log) where
  gpio_export-pushes : pushes (gpio_export os gpio h).1 ≡ pushes h
  unfolding gpio_export
  gpio_export-pushes = write_file-pushes os _ _ _ h refl

  gpio_set_direction-pushes :
      (dir : Direction) → pushes (gpio_set_direction os gpio dir h).1 ≡ pushes h
  unfolding gpio_set_direction
  gpio_set_direction-pushes dir = write_file-pushes os _ _ _ h refl

  pub gpio_set_edge-pushes : (edge : Edge) → pushes (gpio_set_edge os gpio edge h).1 ≡ pushes h
  unfolding gpio_set_edge
  gpio_set_edge-pushes edge = write_file-pushes os _ _ _ h refl

abbrev pub IsQuiet : {A : Type 0} → Io A → Type 0
IsQuiet call = (h : Log) → pushes (call h).1 ≡ pushes h

require-IsQuiet :
    (call : Io ℤ) (line : Bytes) (rest : Io Bool)
    → IsQuiet call
    → list_eq line pushed_line ≡ false
    → IsQuiet rest
    → IsQuiet (require call line rest)
unfolding pushes
require-IsQuiet call line rest c e r h = elim (Bool-cases (is_ok (call h).0)) [
  | inl good ↦ rw good (r (call h).1 ∙ c h)
  | inr bad ↦ rw bad (ground (arith, c h))
]

pub set_up-IsQuiet : (os : Os) → IsQuiet (set_up os)
unfolding set_up
set_up-IsQuiet os =
    let last : Io Bool = require (gpio_set_direction os in_gpio dir_in) dir_fail success in
    let dirs : Io Bool = require (gpio_set_direction os out_gpio dir_out) dir_fail last in
    let exports : Io Bool = require (gpio_export os in_gpio) not_found dirs in
    require-IsQuiet (gpio_export os out_gpio) not_found exports
      (λ h. gpio_export-pushes os out_gpio h) refl
      (require-IsQuiet (gpio_export os in_gpio) not_found dirs
        (λ h. gpio_export-pushes os in_gpio h) refl
        (require-IsQuiet (gpio_set_direction os out_gpio dir_out) dir_fail last
          (λ h. gpio_set_direction-pushes os out_gpio h dir_out) refl
          (require-IsQuiet (gpio_set_direction os in_gpio dir_in) dir_fail success
            (λ h. gpio_set_direction-pushes os in_gpio h dir_in) refl (λ h. refl))))
