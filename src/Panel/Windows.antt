-- ===== src/Panel/Windows.antt =====
-- What the loop of `swTask` computes: one toggle for each window low, low, high, high of the samples.
use linux_app_samp.Base.{
  if◌then◌else◌, length, ℕ, zero, suc, ◌+◌, ◌*◌, ◌≤◌, ◌≡◌, refl, sym, ap, ◌∙◌, ◌⊎◌, Bool, true,
  false, not, ◌&&◌, List, [], ◌∷◌, arith,
}
use native.Mathlib.Nat.{zero-add}
use mathlib.Core.Path.{ap₂}
use mathlib.Core.Bool.{xor}
use native.Mathlib.Numerals.{one-add}
use linux_app_samp.Panel.Debounce.{Switch, start, shift, sample, samples}

abbrev is_press : Bool → Bool → Bool → Bool → Bool
is_press a b c d = not a && not b && c && d

abbrev one_if : Bool → ℕ
one_if true = 1
one_if false = 0

-- The number of windows low, low, high, high.
unfoldable pub presses : List Bool → ℕ
presses (a ∷ b ∷ c ∷ d ∷ rest) = one_if (is_press a b c d) + presses (b ∷ c ∷ d ∷ rest)
presses _ = 0

unfoldable pub toggled : ℕ → Bool → Bool
toggled zero b = b
toggled (suc n) b = not (toggled n b)

toggled-not : (n : ℕ) (b : Bool) → toggled n (not b) ≡ not (toggled n b)
unfolding toggled
toggled-not zero b = refl
toggled-not (suc n) b = ap not (toggled-not n b)

toggled-one_if :
    (p : Bool) (n : ℕ) (b : Bool) → toggled (one_if p + n) b ≡ toggled n (if p then not b else b)
unfolding toggled
toggled-one_if true n b = rw one-add (sym (toggled-not n b))
toggled-one_if false n b = rw zero-add

sample-full :
    (s : Switch) (now bf_start : Bool)
    → 3 ≤ s.pos
    → sample s now bf_start
      ≡ (shift s now, if is_press s.hist0 s.hist1 s.hist2 now then not bf_start else bf_start)
unfolding sample
sample-full s now bf_start h = ground arith

-- From a full history on, a toggle for each window that ends in a new sample.
samples-full :
    (rest : List Bool) (s : Switch) (bf_start : Bool)
    → 3 ≤ s.pos
    → (samples rest s bf_start).1 ≡ toggled (presses (s.hist0 ∷ s.hist1 ∷ s.hist2 ∷ rest)) bf_start
unfolding samples presses toggled
samples-full [] s bf_start h = refl
samples-full (now ∷ rest) s bf_start h =
    rw
      (toggled-one_if (is_press s.hist0 s.hist1 s.hist2 now)
        (presses (s.hist1 ∷ s.hist2 ∷ now ∷ rest)) bf_start)
      (ap (λ (r : Switch × Bool). (samples rest r.0 r.1).1) (sample-full s now bf_start h)
        ∙ samples-full rest (shift s now)
            (if is_press s.hist0 s.hist1 s.hist2 now then not bf_start else bf_start) h)

-- Whatever is sampled, and whatever the flag was: it ends toggled once for each window low, low,
-- high, high among the samples.
pub samples-presses :
    (xs : List Bool) (bf_start : Bool)
    → (samples xs start bf_start).1 ≡ toggled (presses xs) bf_start
unfolding samples sample presses start toggled
samples-presses [] bf_start = refl
samples-presses (a ∷ []) bf_start = refl
samples-presses (a ∷ b ∷ []) bf_start = refl
samples-presses (a ∷ b ∷ c ∷ rest) bf_start =
    samples-full rest (record { hist0 = a; hist1 = b; hist2 = c; pos = 3 }) bf_start (omega arith)

-- No press begins with a high sample.
presses-high : (xs : List Bool) → presses (true ∷ xs) ≡ presses xs
unfolding presses
presses-high [] = refl
presses-high (b ∷ []) = refl
presses-high (b ∷ c ∷ []) = refl
presses-high (b ∷ c ∷ d ∷ rest) = rw zero-add

presses-low_high : (xs : List Bool) → presses (false ∷ true ∷ xs) ≡ presses xs
unfolding presses
presses-low_high [] = refl
presses-low_high (c ∷ []) = refl
presses-low_high (c ∷ d ∷ rest) = rw (zero-add, presses-high (c ∷ d ∷ rest))

presses-press : (rest : List Bool) → presses (false ∷ false ∷ true ∷ true ∷ rest) ≡ 1 + presses rest
unfolding presses
presses-press rest = rw (presses-low_high (true ∷ rest), presses-high rest)

presses-quarter : (xs : List Bool) → presses xs * 4 ≤ length xs
unfolding presses
presses-quarter (false ∷ false ∷ true ∷ true ∷ rest) =
    omega (arith, presses-press rest, presses-quarter rest)
presses-quarter (a ∷ b ∷ c ∷ d ∷ rest) = ground (arith, presses-quarter (b ∷ c ∷ d ∷ rest))
presses-quarter _ = omega arith

-- The rounds in which the flag changes.
unfoldable pub flips : List Bool → Switch → Bool → ℕ
flips [] s bf_start = 0
flips (now ∷ rest) s bf_start =
    let (s', bf') = sample s now bf_start in one_if (xor bf_start bf') + flips rest s' bf'

one_if-xor : (p b : Bool) → one_if (xor b (if p then not b else b)) ≡ one_if p
unfolding xor
one_if-xor p b = ground arith

flips-full :
    (rest : List Bool) (s : Switch) (bf_start : Bool)
    → 3 ≤ s.pos
    → flips rest s bf_start ≡ presses (s.hist0 ∷ s.hist1 ∷ s.hist2 ∷ rest)
unfolding flips presses xor
flips-full [] s bf_start h = refl
flips-full (now ∷ rest) s bf_start h =
    let p : Bool = is_press s.hist0 s.hist1 s.hist2 now in
    let bf' : Bool = if p then not bf_start else bf_start in
    ap (λ (r : Switch × Bool). one_if (xor bf_start r.1) + flips rest r.0 r.1)
      (sample-full s now bf_start h)
    ∙ ap₂ ◌+◌ (one_if-xor p bf_start) (flips-full rest (shift s now) bf' h)

flips-presses : (xs : List Bool) (bf_start : Bool) → flips xs start bf_start ≡ presses xs
unfolding flips sample presses start xor
flips-presses [] bf_start = refl
flips-presses (a ∷ []) bf_start = ground arith
flips-presses (a ∷ b ∷ []) bf_start = ground arith
flips-presses (a ∷ b ∷ c ∷ rest) bf_start = ground (
  arith,
  flips-full rest (record { hist0 = a; hist1 = b; hist2 = c; pos = 3 }) bf_start (omega arith),
)

-- However the switch is sampled, the flag changes in at most a quarter of the rounds: two changes are
-- at least four samples apart.
pub flips_rate : (xs : List Bool) (bf_start : Bool) → flips xs start bf_start * 4 ≤ length xs
flips_rate xs bf_start = omega (arith, presses-quarter xs, flips-presses xs bf_start)

-- Of two samples in a row one is low.
abbrev pub IsGlitch : List Bool → Type 0
IsGlitch (a ∷ b ∷ rest) = ((a ≡ false) ⊎ (b ≡ false)) × IsGlitch (b ∷ rest)
IsGlitch _ = Unit

presses-glitch : (xs : List Bool) → IsGlitch xs → presses xs ≡ 0
unfolding presses
presses-glitch (a ∷ b ∷ c ∷ d ∷ rest) h = ground (arith, presses-glitch (b ∷ c ∷ d ∷ rest) h.1)
presses-glitch _ h = refl

-- While of any two samples in a row one is low, so that a high level lasts one sample only, the flag
-- never changes.
pub flips_glitch : (xs : List Bool) (bf_start : Bool) → IsGlitch xs → flips xs start bf_start ≡ 0
flips_glitch xs bf_start h = flips-presses xs bf_start ∙ presses-glitch xs h
