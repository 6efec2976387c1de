-- ===== src/Os.antt =====
-- The file system calls of the programs, as a history of events, and the system that answers them as
-- a parameter: an answer may depend on all that has happened.
pub mod Files
pub mod Sample
use linux_app_samp.Base.{
  ℕ, suc, ◌+◌, ◌≡◌, Bool, true, false, ◌==◌, if◌then◌else◌, ℤ, pos, negsuc, Bytes, Option, none,
  some, List, [], ◌∷◌,
}

pub data Mode : Type 0 where
  rdonly wronly : Mode

-- What has happened, the newest event first.
pub data Event : Type 0 where
  opened : (path : Bytes) (mode : Mode) (fd : ℤ) → Event
  wrote : (fd : ℤ) (bytes : Bytes) → Event
  has_read : (fd : ℤ) (byte : Option ℕ) → Event
  rewound : (fd : ℤ) → Event
  closed : (fd : ℤ) → Event
  printed : (line : Bytes) → Event
  slept : (usec : ℕ) → Event
  waited : (ret : ℤ) → Event

abbrev pub Log : Type 0
Log = List Event

-- What the system answers: a descriptor or a negative number to `open`; to a `read` of one byte
-- that byte, or none at the end of the file and on an error; the value of `poll`, `select` and
-- `epoll_wait`. `stack_byte` is what a local `char` holds that was never written.
pub record Os : Type 0 where
  pub open_result : Log → Bytes → ℤ
  pub read_result : Log → ℤ → Option ℕ
  pub wait_result : Log → ℤ
  pub stack_byte : Log → ℕ

abbrev pub Io : Type 0 → Type 0
Io A = Log → A × Log

abbrev pub pure : {A : Type 0} → A → Io A
pure a h = (a, h)

infixl 5 ◌>>=◌ ◌>>◌
abbrev pub ◌>>=◌ : {A B : Type 0} → Io A → (A → Io B) → Io B
◌>>=◌ m f h = let (a, h') = m h in f a h'

abbrev pub ◌>>◌ : {B : Type 0} → Io (Unit {0}) → Io B → Io B
m >> k = m >>= λ _. k

abbrev pub emit : Event → Io (Unit {0})
emit e h = (tt, e ∷ h)

module _ (os : Os) where
  abbrev pub sys_open : Bytes → Mode → Io ℤ
  sys_open path mode h = let fd = os.open_result h path in (fd, opened path mode fd ∷ h)

  -- `read(fd, &code, 1)`, where `code` keeps its value if nothing is read.
  abbrev pub sys_read : ℤ → ℕ → Io ℕ
  sys_read fd code h =
      let answer = os.read_result h fd in
      (elim answer [ none ↦ code | some byte ↦ byte ], has_read fd answer ∷ h)

  abbrev pub sys_local : Io ℕ
  sys_local h = (os.stack_byte h, h)
