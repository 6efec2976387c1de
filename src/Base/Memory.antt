-- ===== src/Base/Memory.antt =====
-- C arrays of bytes as lists of numbers: an indexed read, memset, memcpy to the front of an array.
use Prim.Native.Nat.{ℕ, zero, suc, ◌+◌, ◌≤◌, ◌<◌}
use mathlib.Core.Path.{◌≡◌, refl, ap}
use mathlib.Core.List.{List, [], ◌∷◌}
use native.Mathlib.Omega.{arith}
use linux_app_samp.Base.Tests.{ltb, ◌==◌, if◌then◌else◌}
use linux_app_samp.Base.Lists.{length, set, take, drop, replicate}

abbrev pub Bytes : Type 0
Bytes = List ℕ

-- A read past the end gives 0; the places that can read there test their index first.
unfoldable pub get_or : Bytes → ℕ → ℕ
get_or [] i = 0
get_or (x ∷ xs) zero = x
get_or (x ∷ xs) (suc i) = get_or xs i

-- `memcpy(dst, src, length src)`; what does not fit is dropped.
unfoldable pub overlay : Bytes → Bytes → Bytes
overlay [] dst = dst
overlay (x ∷ src) [] = []
overlay (x ∷ src) (y ∷ dst) = x ∷ overlay src dst

pub length-overlay : (src dst : Bytes) → length (overlay src dst) ≡ length dst
unfolding overlay
length-overlay [] dst = refl
length-overlay (x ∷ src) [] = refl
length-overlay (x ∷ src) (y ∷ dst) = ap suc (length-overlay src dst)

pub get_or-overlay :
    (src dst : Bytes) (i : ℕ)
    → length src ≤ length dst
    → get_or (overlay src dst) i ≡ (if ltb i (length src) then get_or src i else get_or dst i)
unfolding overlay get_or
get_or-overlay [] dst i h = ground arith
get_or-overlay (x ∷ src) [] i h = elim h [ ]
get_or-overlay (x ∷ src) (y ∷ dst) zero h = ground arith
get_or-overlay (x ∷ src) (y ∷ dst) (suc i) h = ground (arith, get_or-overlay src dst i)

pub get_or-set :
    (xs : Bytes) (i j v : ℕ)
    → i < length xs
    → get_or (set xs i v) j ≡ (if i == j then v else get_or xs j)
unfolding get_or
get_or-set [] i j v h = elim h [ ]
get_or-set (x ∷ xs) zero zero v h = refl
get_or-set (x ∷ xs) zero (suc j) v h = ground arith
get_or-set (x ∷ xs) (suc i) zero v h = ground arith
get_or-set (x ∷ xs) (suc i) (suc j) v h = ground (arith, get_or-set xs i j v)

pub get_or-replicate : (n v i : ℕ) → get_or (replicate n v) i ≡ (if ltb i n then v else 0)
unfolding replicate get_or
get_or-replicate zero v i = ground arith
get_or-replicate (suc n) v zero = ground arith
get_or-replicate (suc n) v (suc i) = ground (arith, get_or-replicate n v i)

pub get_or-drop : (n : ℕ) (xs : Bytes) (i : ℕ) → get_or (drop n xs) i ≡ get_or xs (n + i)
unfolding drop get_or
get_or-drop zero xs i = ground arith
get_or-drop (suc n) [] i = refl
get_or-drop (suc n) (x ∷ xs) i = ground (arith, get_or-drop n xs i)

pub get_or-take :
    (n : ℕ) (xs : Bytes) (i : ℕ) → get_or (take n xs) i ≡ (if ltb i n then get_or xs i else 0)
unfolding take get_or
get_or-take zero xs i = ground arith
get_or-take (suc n) [] i = ground arith
get_or-take (suc n) (x ∷ xs) zero = ground arith
get_or-take (suc n) (x ∷ xs) (suc i) = ground (arith, get_or-take n xs i)

-- Two arrays of one length that agree at each index are equal.
pub eq_of_get_or :
    (xs ys : Bytes)
    → length xs ≡ length ys
    → ((i : ℕ) → i < length xs → get_or xs i ≡ get_or ys i)
    → xs ≡ ys
unfolding get_or
eq_of_get_or [] [] e h = refl
eq_of_get_or [] (y ∷ ys) e h = absurd (omega arith)
eq_of_get_or (x ∷ xs) [] e h = absurd (omega arith)
eq_of_get_or (x ∷ xs) (y ∷ ys) e h =
    ground (arith, h 0, eq_of_get_or xs ys (omega arith) (λ i lt. h (suc i) (omega arith)))

pub drop-overlay : (t dst : Bytes) → drop (length t) (overlay t dst) ≡ drop (length t) dst
unfolding overlay drop
drop-overlay [] dst = refl
drop-overlay (x ∷ t) [] = refl
drop-overlay (x ∷ t) (y ∷ dst) = drop-overlay t dst
