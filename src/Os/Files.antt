-- ===== src/Os/Files.antt =====
-- What a history says of the files: which path a descriptor stands for, and what was last written
-- to a path.
use linux_app_samp.Base.{
  ℕ, ◌==◌, ◌≡◌, Bool, false, if◌then◌else◌, ℤ, pos, negsuc, Bytes, Option, none, some, [], ◌∷◌,
  list_eq,
}
use linux_app_samp.Os.{opened, wrote, has_read, rewound, closed, printed, slept, waited, Log, Os}

abbrev pub int_eq : ℤ → ℤ → Bool
int_eq (pos a) (pos b) = a == b
int_eq (pos a) (negsuc b) = false
int_eq (negsuc a) (pos b) = false
int_eq (negsuc a) (negsuc b) = a == b

-- The file that a descriptor is open on.
unfoldable pub path_of : Log → ℤ → Option Bytes
path_of [] fd = none
path_of (opened path mode (negsuc error) ∷ h) fd = path_of h fd
path_of (opened path mode (pos n) ∷ h) fd = if int_eq (pos n) fd then some path else path_of h fd
path_of (closed fd' ∷ h) fd = if int_eq fd' fd then none else path_of h fd
path_of (wrote fd' bytes ∷ h) fd = path_of h fd
path_of (has_read fd' byte ∷ h) fd = path_of h fd
path_of (rewound fd' ∷ h) fd = path_of h fd
path_of (printed line ∷ h) fd = path_of h fd
path_of (slept usec ∷ h) fd = path_of h fd
path_of (waited ret ∷ h) fd = path_of h fd

-- What was last written to a path, as one `write`.
unfoldable pub content : Log → Bytes → Option Bytes
content [] path = none
content (wrote fd bytes ∷ h) path = elim (path_of h fd) [
  | none ↦ content h path
  | some to ↦ if list_eq to path then some bytes else content h path
]
content (opened p mode fd ∷ h) path = content h path
content (closed fd ∷ h) path = content h path
content (has_read fd byte ∷ h) path = content h path
content (rewound fd ∷ h) path = content h path
content (printed line ∷ h) path = content h path
content (slept usec ∷ h) path = content h path
content (waited ret ∷ h) path = content h path

-- `open` gives a descriptor that is not in use.
abbrev pub FreshOpen : Os → Type 0
FreshOpen os =
    (h : Log) (path : Bytes) (n : ℕ) → os.open_result h path ≡ pos n → path_of h (pos n) ≡ none
