-- ===== src/Panel/Fields.antt =====
-- The numbers of a printed time, `%0<width>d`, at their places in a text.
use native.Mathlib.Nat.{zero-add, suc-add}
use linux_app_samp.Base.{
  length, take, drop, Bytes, dec, pad, value, IsDigits, IsDigits-pad, value-pad_zero, length-dec,
  length-pad, ℕ, zero, suc, ◌+◌, ◌^◌, ◌<◌, ◌≡◌, refl, ap, [], ◌∷◌, ◌++◌, arith,
}

abbrev pub zero_padded : ℕ → ℕ → Bytes
zero_padded width n = pad width b'0' (dec n)

-- At a place of the text stands a number, in decimal digits only.
abbrev pub ShowsNumber : (text : Bytes) (from width : ℕ) → ℕ → Type 0
ShowsNumber text from width n =
    IsDigits (take width (drop from text)) × (value (take width (drop from text)) ≡ n)

-- At a place of the text stands one byte.
abbrev pub ShowsByte : (text : Bytes) (from : ℕ) → ℕ → Type 0
ShowsByte text from c = take 1 (drop from text) ≡ c ∷ []

pub take-append_exact : (xs ys : Bytes) (n : ℕ) → length xs ≡ n → take n (xs ++ ys) ≡ xs
unfolding take
take-append_exact [] ys zero h = refl
take-append_exact [] ys (suc n) h = absurd (omega arith)
take-append_exact (x ∷ xs) ys zero h = absurd (omega arith)
take-append_exact (x ∷ xs) ys (suc n) h = ap (λ t. x ∷ t) (take-append_exact xs ys n (omega arith))

pub drop-append_exact :
    (xs ys : Bytes) (n k : ℕ) → length xs ≡ n → drop (n + k) (xs ++ ys) ≡ drop k ys
unfolding drop
drop-append_exact [] ys n k h = rw (← h) (rw zero-add)
drop-append_exact (x ∷ xs) ys zero k h = absurd (omega arith)
drop-append_exact (x ∷ xs) ys (suc n) k h = rw suc-add (drop-append_exact xs ys n k (omega arith))

pub length-zero_padded : (k n : ℕ) → n < 10 ^ suc k → length (zero_padded (suc k) n) ≡ suc k
length-zero_padded k n h = length-pad (suc k) b'0' (dec n) (length-dec n k h)

-- A field at the front of a text, and the text behind it and behind one more byte.
pub field_here :
    (k n : ℕ) (rest : Bytes)
    → n < 10 ^ suc k
    → ShowsNumber (zero_padded (suc k) n ++ rest) 0 (suc k) n
unfolding drop
field_here k n rest h =
    rw (take-append_exact (zero_padded (suc k) n) rest (suc k) (length-zero_padded k n h))
      (IsDigits-pad (suc k) n, value-pad_zero (suc k) n)

-- The byte behind a field.
pub byte_behind :
    (k n c : ℕ) (rest : Bytes)
    → n < 10 ^ suc k
    → take 1 (drop (suc k + 0) (zero_padded (suc k) n ++ (c ∷ [] ++ rest))) ≡ c ∷ []
unfolding take drop
byte_behind k n c rest h = ap (take 1) (
    drop-append_exact (zero_padded (suc k) n) (c ∷ [] ++ rest) (suc k) 0 (length-zero_padded k n h))

pub field_skip :
    (k n c j : ℕ) (rest : Bytes)
    → n < 10 ^ suc k
    → drop (suc k + suc j) (zero_padded (suc k) n ++ (c ∷ [] ++ rest)) ≡ drop j rest
unfolding drop
field_skip k n c j rest h =
    drop-append_exact (zero_padded (suc k) n) (c ∷ [] ++ rest) (suc k) (suc j)
      (length-zero_padded k n h)
