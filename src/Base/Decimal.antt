-- ===== src/Base/Decimal.antt =====
-- `%d`, `%2d`, `%02d` and `%04d` of printf for numbers that are not negative.
use Prim.Native.Nat.{ℕ, zero, suc, ◌+◌, ◌-◌, ◌*◌, ◌/◌, ◌%◌, ◌^◌, ◌≤◌, ◌<◌}
use mathlib.Core.Path.{◌≡◌, refl, ◌∙◌}
use mathlib.Core.Logic.{inl, inr}
use mathlib.Core.Bool.{false}
use mathlib.Core.List.{[], ◌∷◌, ◌++◌}
use native.Mathlib.Omega.{arith}
use native.Mathlib.Nat.{pow-suc}
use linux_app_samp.Base.Int.{ℤ, pos, negsuc}
use linux_app_samp.Base.Tests.{ltb, if◌then◌else◌, Bool-cases}
use linux_app_samp.Base.Lists.{length, length-append, replicate, length-replicate}
use linux_app_samp.Base.Memory.{Bytes}

-- The digits of `n`, on fuel.
digits : ℕ → ℕ → Bytes
digits zero n = []
digits (suc fuel) n =
    let rest = digits fuel (n / 10) ++ (b'0' + n % 10) ∷ [] in
    if ltb n 10 then (b'0' + n) ∷ [] else rest

-- Every division by ten makes `n` smaller.
unfoldable pub dec : ℕ → Bytes
unfolding digits
dec n = digits (suc n) n

-- Padding on the left to a width.
unfoldable pub pad : ℕ → ℕ → Bytes → Bytes
unfolding replicate
pad width fill text = replicate (width - length text) fill ++ text

-- The number that a run of digits stands for.
unfoldable pub value_from : ℕ → Bytes → ℕ
value_from acc [] = acc
value_from acc (d ∷ ds) = value_from (acc * 10 + (d - b'0')) ds

unfoldable pub value : Bytes → ℕ
unfolding value_from
value = value_from 0

value_from-append :
    (acc : ℕ) (xs : Bytes) (d : ℕ)
    → value_from acc (xs ++ d ∷ []) ≡ value_from acc xs * 10 + (d - b'0')
unfolding value_from
value_from-append acc [] d = refl
value_from-append acc (x ∷ xs) d = value_from-append (acc * 10 + (x - b'0')) xs d

value-digits : (fuel n : ℕ) → n < fuel → value_from 0 (digits fuel n) ≡ n
unfolding digits value_from
value-digits zero n h = elim h [ ]
value-digits (suc fuel) n h = elim (Bool-cases (ltb n 10)) [
  | inl small ↦ rw small (omega arith)
  | inr large ↦ rw large (
      value_from-append 0 (digits fuel (n / 10)) (b'0' + n % 10)
      ∙ ground (arith, value-digits fuel (n / 10)))
]

-- The text of a number stands for it.
pub value-dec : (n : ℕ) → value (dec n) ≡ n
unfolding value dec
value-dec n = value-digits (suc n) n (omega arith)

-- Every byte is a decimal digit.
abbrev pub IsDigits : Bytes → Type 0
IsDigits [] = Unit
IsDigits (d ∷ ds) = (b'0' ≤ d) × (d ≤ b'9') × IsDigits ds

IsDigits-append : (xs ys : Bytes) → IsDigits xs → IsDigits ys → IsDigits (xs ++ ys)
IsDigits-append [] ys h k = k
IsDigits-append (x ∷ xs) ys h k = (h.0, h.1, IsDigits-append xs ys h.2 k)

IsDigits-digits : (fuel n : ℕ) → IsDigits (digits fuel n)
unfolding digits
IsDigits-digits zero n = tt
IsDigits-digits (suc fuel) n = elim (Bool-cases (ltb n 10)) [
  | inl small ↦ rw small (omega arith, ground (arith, small), tt)
  | inr large ↦ rw large (
      IsDigits-append (digits fuel (n / 10)) ((b'0' + n % 10) ∷ []) (IsDigits-digits fuel (n / 10))
        (omega arith, omega arith, tt))
]

pub IsDigits-dec : (n : ℕ) → IsDigits (dec n)
unfolding dec
IsDigits-dec n = IsDigits-digits (suc n) n

IsDigits-zeros : (k : ℕ) → IsDigits (replicate k b'0')
unfolding replicate
IsDigits-zeros zero = tt
IsDigits-zeros (suc k) = (omega arith, omega arith, IsDigits-zeros k)

pub IsDigits-pad : (width n : ℕ) → IsDigits (pad width b'0' (dec n))
unfolding pad
IsDigits-pad width n =
    IsDigits-append (replicate (width - length (dec n)) b'0') (dec n)
      (IsDigits-zeros (width - length (dec n))) (IsDigits-dec n)

-- Zeros in front change nothing.
value_from-zeros : (k : ℕ) (xs : Bytes) → value_from 0 (replicate k b'0' ++ xs) ≡ value_from 0 xs
unfolding value_from replicate
value_from-zeros zero xs = refl
value_from-zeros (suc k) xs = value_from-zeros k xs

pub value-pad_zero : (width n : ℕ) → value (pad width b'0' (dec n)) ≡ n
unfolding value pad
value-pad_zero width n = value_from-zeros (width - length (dec n)) (dec n) ∙ value-dec n

length-digits_large :
    (fuel n : ℕ)
    → ltb n 10 ≡ false
    → length (digits (suc fuel) n) ≡ length (digits fuel (n / 10)) + 1
unfolding digits
length-digits_large fuel n large =
    rw (large, if◌then◌else◌) (length-append (digits fuel (n / 10)) ((b'0' + n % 10) ∷ []))

digits_pos : (fuel n : ℕ) → 0 < length (digits (suc fuel) n)
digits_pos fuel n = elim (Bool-cases (ltb n 10)) [
  | inl small ↦ unfold digits in rw small (omega arith)
  | inr large ↦ omega (arith, length-digits_large fuel n large)
]

pub dec_pos : (n : ℕ) → 0 < length (dec n)
unfolding dec
dec_pos n = digits_pos n n

-- A number below a power of ten has no more digits than that power.
length-digits : (fuel n k : ℕ) → n < 10 ^ suc k → length (digits fuel n) ≤ suc k
unfolding digits
length-digits zero n k h = omega arith
length-digits (suc fuel) n zero h = elim (Bool-cases (ltb n 10)) [
  | inl small ↦ rw small (omega arith)
  | inr large ↦ absurd (ground arith)
]
length-digits (suc fuel) n (suc k) h = elim (Bool-cases (ltb n 10)) [
  | inl small ↦ rw small (omega arith)
  | inr large ↦
      rw (length-digits_large fuel n large)
        (omega (arith, length-digits fuel (n / 10) k (omega (arith, pow-suc 10 (suc k)))))
]

pub length-dec : (n k : ℕ) → n < 10 ^ suc k → length (dec n) ≤ suc k
unfolding dec
length-dec n k h = length-digits (suc n) n k h

pub length-pad :
    (width fill : ℕ) (text : Bytes) → length text ≤ width → length (pad width fill text) ≡ width
unfolding pad
length-pad width fill text h = omega (
  arith,
  length-append (replicate (width - length text) fill) text,
  length-replicate (width - length text) fill,
)

-- Two digits or more fill a width of two.
length-dec_two : (n : ℕ) → 10 ≤ n → 2 ≤ length (dec n)
unfolding dec
length-dec_two zero p = absurd (omega arith)
length-dec_two (suc n) p =
    omega (arith, length-digits_large (suc n) (suc n) (ground arith), digits_pos n (suc n / 10))

pub pad_two : (n : ℕ) → 10 ≤ n → pad 2 b' ' (dec n) ≡ dec n
unfolding pad
pad_two n p =
    let none_missing : 2 - length (dec n) ≡ 0 = omega (arith, length-dec_two n p) in rw none_missing

pub dec_small : (n : ℕ) → n < 10 → dec n ≡ (b'0' + n) ∷ []
unfolding dec
dec_small n h = ground arith

pub pad_small : (n : ℕ) → n < 10 → pad 2 b' ' (dec n) ≡ b' ' ∷ (b'0' + n) ∷ []
unfolding pad
pad_small n h = rw (dec_small n h)

pub length-pad_le :
    (width fill : ℕ) (text : Bytes) → length (pad width fill text) ≤ width + length text
unfolding pad
length-pad_le width fill text = omega (
  arith,
  length-append (replicate (width - length text) fill) text,
  length-replicate (width - length text) fill,
)

-- `%d` and `%ld`
unfoldable pub int_text : ℤ → Bytes
int_text (pos n) = dec n
int_text (negsuc n) = b'-' ∷ dec (suc n)
