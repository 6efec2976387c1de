-- ===== src/Gpio/Descriptors.antt =====
-- The open files before and after a GPIO function.
use linux_app_samp.Base.{
  ◌==◌, if◌then◌else◌, list_eq, Bytes, codes, dec, value, ℤ, pos, negsuc, ℕ, ◌≡◌, refl, ◌⊎◌, inl,
  inr, Bool, true, Option, none, some, ◌∷◌, arith,
}
use linux_app_samp.Base.Int.{sign_cases, is_neg}
use linux_app_samp.Os.{Os, Mode, rdonly, wronly, opened, closed, wrote, has_read, Log}
use linux_app_samp.Os.Files.{path_of, content, FreshOpen}
use linux_app_samp.Gpio.Paths.{gpio_path}
use linux_app_samp.Gpio.Calls.{
  Direction, Edge, announce, write_file, read_level, gpio_export, gpio_set_direction, gpio_set_edge,
  gpio_set_value, gpio_get_value, gpio_get_hi_low,
}

-- A descriptor that was not in use and is closed again leaves the table as it was.
path_of-open_close :
    (h : Log) (path : Bytes) (mode : Mode) (n : ℕ) (fd : ℤ)
    → path_of h (pos n) ≡ none
    → path_of (closed (pos n) ∷ opened path mode (pos n) ∷ h) fd ≡ path_of h fd
unfolding path_of
path_of-open_close h path mode n (pos m) free = ground arith
path_of-open_close h path mode n (negsuc m) free = ground arith

module _ (os : Os) (path : Bytes) (h : Log) where
  -- The two ways of a call that writes.
  pub write_file_cases :
      (line : Option Bytes) (bytes : Bytes)
      → ((n : ℕ) × (os.open_result h path ≡ negsuc n)
          × (write_file os path line bytes h ≡ (negsuc n, opened path wronly (negsuc n) ∷ h)))
        ⊎ ((n : ℕ) × (os.open_result h path ≡ pos n)
            × (write_file os path line bytes h ≡ (
              pos 0,
              closed (pos n)
                  ∷ wrote (pos n) bytes
                  ∷ (announce line (opened path wronly (pos n) ∷ h)).1,
            )))
  unfolding write_file
  write_file_cases line bytes = elim (sign_cases (os.open_result h path)) [
    | inl (n, e) ↦ inr (n, e, rw e)
    | inr (n, e) ↦ inl (n, e, rw e)
  ]

  -- Between the two the line printed is no matter.
  path_of-write_close :
      (line : Option Bytes) (bytes : Bytes) (n : ℕ) (fd : ℤ)
      → path_of h (pos n) ≡ none
      → path_of
          (closed (pos n)
            ∷ wrote (pos n) bytes
            ∷ (announce line (opened path wronly (pos n) ∷ h)).1)
          fd
        ≡ path_of h fd
  unfolding path_of
  path_of-write_close none bytes n fd free = path_of-open_close h path wronly n fd free
  path_of-write_close (some line) bytes n fd free = path_of-open_close h path wronly n fd free

  write_file-keeps :
      FreshOpen os
      → (line : Option Bytes) (bytes : Bytes) (fd : ℤ)
      → path_of (write_file os path line bytes h).1 fd ≡ path_of h fd
  write_file-keeps fresh line bytes fd = elim (write_file_cases line bytes) [
    | inl (n, e, run) ↦ rw run (unfold path_of in refl)
    | inr (n, e, run) ↦ rw run (path_of-write_close line bytes n fd (fresh h path n e))
  ]

  content-write_close :
      (line : Option Bytes) (bytes to : Bytes) (n : ℕ)
      → content
          (closed (pos n)
            ∷ wrote (pos n) bytes
            ∷ (announce line (opened path wronly (pos n) ∷ h)).1)
          to
        ≡ (if list_eq path to then some bytes else content h to)
  unfolding content path_of
  content-write_close none bytes to n = ground arith
  content-write_close (some line) bytes to n = ground arith

  -- What a call that writes does to the files: on success its path holds the text, and nothing else
  -- has changed; on failure nothing has. It succeeds exactly if the file can be opened.
  pub write_file-content :
      (line : Option Bytes) (bytes to : Bytes)
      → content (write_file os path line bytes h).1 to ≡ (
          if is_neg (write_file os path line bytes h).0
          then content h to
          else if list_eq path to
          then some bytes
          else content h to)
  write_file-content line bytes to = elim (write_file_cases line bytes) [
    | inl (n, e, run) ↦ rw run (unfold content in refl)
    | inr (n, e, run) ↦ rw run (content-write_close line bytes to n)
  ]

module _ (os : Os) (gpio : ℕ) (h : Log) where
  abbrev value_path : Bytes
  value_path = gpio_path gpio (codes "value")

  pub gpio_get_cases :
      ((n : ℕ) × (os.open_result h value_path ≡ negsuc n)
        × (gpio_get_value os gpio h ≡ (negsuc n, opened value_path rdonly (negsuc n) ∷ h))
        × (gpio_get_hi_low os gpio h ≡ (true, opened value_path rdonly (negsuc n) ∷ h)))
      ⊎ ((n : ℕ) × (byte : Option ℕ) × (hi : Bool) × (os.open_result h value_path ≡ pos n)
          × (gpio_get_value os gpio h ≡ (
            if hi then pos 1 else pos 0,
            closed (pos n) ∷ has_read (pos n) byte ∷ opened value_path rdonly (pos n) ∷ h,
          ))
          × (gpio_get_hi_low os gpio h ≡ (
            hi,
            closed (pos n) ∷ has_read (pos n) byte ∷ opened value_path rdonly (pos n) ∷ h,
          )))
  unfolding gpio_get_value gpio_get_hi_low read_level
  gpio_get_cases = elim (sign_cases (os.open_result h value_path)) [
    | inl (n, e) ↦
        let h' : Log = opened value_path rdonly (pos n) ∷ h in
        let byte : Option ℕ = os.read_result h' (pos n) in
        let code : ℕ = elim byte [ none ↦ os.stack_byte h' | some b ↦ b ] in
        inr (n, byte, code == b'1', e, rw e, rw e)
    | inr (n, e) ↦ inl (n, e, rw e, rw e)
  ]

  path_of-read_close :
      (byte : Option ℕ) (n : ℕ) (fd : ℤ)
      → path_of h (pos n) ≡ none
      → path_of (closed (pos n) ∷ has_read (pos n) byte ∷ opened value_path rdonly (pos n) ∷ h) fd
        ≡ path_of h fd
  unfolding path_of
  path_of-read_close byte n fd free = path_of-open_close h value_path rdonly n fd free

  gpio_get-keeps :
      FreshOpen os
      → (fd : ℤ)
      → (path_of (gpio_get_value os gpio h).1 fd ≡ path_of h fd)
        × (path_of (gpio_get_hi_low os gpio h).1 fd ≡ path_of h fd)
  gpio_get-keeps fresh fd = elim gpio_get_cases [
    | inl (n, e, value, level) ↦
        (rw value (unfold path_of in refl), rw level (unfold path_of in refl))
    | inr (n, byte, hi, e, value, level) ↦
        let kept = path_of-read_close byte n fd (fresh h value_path n e) in
        (rw value kept, rw level kept)
  ]

-- Where descriptors are handed out as they should be, each of the six calls leaves the table of open
-- files as it found it, whether it succeeds or fails.
pub gpio_calls_close :
    (os : Os) (fresh : FreshOpen os) (gpio hi : ℕ) (dir : Direction) (edge : Edge) (h : Log)
    (fd : ℤ)
    → (path_of (gpio_export os gpio h).1 fd ≡ path_of h fd)
      × (path_of (gpio_set_direction os gpio dir h).1 fd ≡ path_of h fd)
      × (path_of (gpio_set_edge os gpio edge h).1 fd ≡ path_of h fd)
      × (path_of (gpio_set_value os gpio hi h).1 fd ≡ path_of h fd)
      × (path_of (gpio_get_value os gpio h).1 fd ≡ path_of h fd)
      × (path_of (gpio_get_hi_low os gpio h).1 fd ≡ path_of h fd)
unfolding gpio_export gpio_set_direction gpio_set_edge gpio_set_value
gpio_calls_close os fresh gpio hi dir edge h fd = (
  write_file-keeps os _ h fresh _ _ fd,
  write_file-keeps os _ h fresh _ _ fd,
  write_file-keeps os _ h fresh _ _ fd,
  write_file-keeps os _ h fresh _ _ fd,
  (gpio_get-keeps os gpio h fresh fd).0,
  (gpio_get-keeps os gpio h fresh fd).1,
)

-- `gpio_set_value` fails exactly if the file cannot be opened.
pub gpio_set_value-is_neg :
    (os : Os) (gpio hi : ℕ) (h : Log)
    → is_neg (gpio_set_value os gpio hi h).0
      ≡ is_neg (os.open_result h (gpio_path gpio (codes "value")))
unfolding gpio_set_value
gpio_set_value-is_neg os gpio hi h =
    elim (write_file_cases os (gpio_path gpio (codes "value")) h none (dec hi)) [
      | inl (n, e, run) ↦ rw (run, e)
      | inr (n, e, run) ↦ rw (run, e)
    ]
