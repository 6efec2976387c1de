-- ===== src/Os/Sample.antt =====
-- A system that never hands out a descriptor twice, reads the same byte everywhere and never waits.
use linux_app_samp.Base.{pos, negsuc, ℕ, suc, ◌+◌, ◌≤◌, ◌≡◌, refl, none, some, [], ◌∷◌, arith}
use linux_app_samp.Os.{opened, wrote, has_read, rewound, closed, printed, slept, waited, Log, Os}
use linux_app_samp.Os.Files.{path_of, FreshOpen}

-- Above every descriptor of the history.
unfoldable pub next_fd : Log → ℕ
next_fd (opened path mode (pos n) ∷ h) = suc n + next_fd h
next_fd (e ∷ h) = next_fd h
next_fd [] = 0

path_of-next_fd : (h : Log) (n : ℕ) → next_fd h ≤ n → path_of h (pos n) ≡ none
unfolding path_of next_fd
path_of-next_fd [] n p = refl
path_of-next_fd (opened path mode (pos m) ∷ h) n p =
    ground (arith, path_of-next_fd h n (omega arith))
path_of-next_fd (opened path mode (negsuc m) ∷ h) n p = path_of-next_fd h n p
path_of-next_fd (closed (pos m) ∷ h) n p = ground (arith, path_of-next_fd h n p)
path_of-next_fd (closed (negsuc m) ∷ h) n p = path_of-next_fd h n p
path_of-next_fd (wrote fd bytes ∷ h) n p = path_of-next_fd h n p
path_of-next_fd (has_read fd byte ∷ h) n p = path_of-next_fd h n p
path_of-next_fd (rewound fd ∷ h) n p = path_of-next_fd h n p
path_of-next_fd (printed line ∷ h) n p = path_of-next_fd h n p
path_of-next_fd (slept usec ∷ h) n p = path_of-next_fd h n p
path_of-next_fd (waited ret ∷ h) n p = path_of-next_fd h n p

abbrev pub sample_os : ℕ → Os
sample_os byte = record {
  open_result = λ h path. pos (next_fd h);
  read_result = λ h fd. some byte;
  wait_result = λ h. pos 1;
  stack_byte = λ h. 0;
}

-- A system on which every `open` fails.
abbrev pub failing_os : Os
failing_os = record {
  open_result = λ h path. negsuc 0;
  read_result = λ h fd. none;
  wait_result = λ h. negsuc 0;
  stack_byte = λ h. 0;
}

pos_number : {a b : ℕ} → pos a ≡ pos b → a ≡ b
pos_number h = ground arith

pub sample_os-FreshOpen : (byte : ℕ) → FreshOpen (sample_os byte)
sample_os-FreshOpen byte h path n e = path_of-next_fd h n (omega (arith, pos_number e))
