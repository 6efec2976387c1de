-- ===== src/Segment/Invariant.antt =====
-- What holds of the segment and of the three processes.
use mathlib.Core.Path.{subst}
use linux_app_samp.Base.{
  length, set, take, replicate, length-replicate, Bytes, get_or, overlay, c_str, is_prefix, IsText,
  ℕ, zero, suc, ◌+◌, ◌≤◌, ◌<◌, ◌≡◌, refl, sym, ap, ◌∙◌, ◌≢◌, ◌⊎◌, true, false, none, some, [], ◌∷◌,
  ◌++◌, arith,
}
use linux_app_samp.Machine.{All}
use linux_app_samp.Segment.Processes.{
  k_size, sample, MainPc, m_get, m_fork1, m_fork2, m_wait, m_remove, m_exit, OnePc, o_none, o_start,
  o_attach, o_copy, o_detach, o_exit, TwoPc, w_none, w_show, Line, shown, State, one_over, two_over,
}

set-overlay :
    (src dst : Bytes) (k : ℕ)
    → k < length src
    → length src ≤ length dst
    → set (overlay (take k src) dst) k (get_or src k) ≡ overlay (take (suc k) src) dst
unfolding overlay take get_or
set-overlay [] dst k p q = absurd (omega arith)
set-overlay (x ∷ src) [] k p q = absurd (omega arith)
set-overlay (x ∷ src) (y ∷ dst) zero p q = refl
set-overlay (x ∷ src) (y ∷ dst) (suc k) p q =
    ap (λ l. x ∷ l) (set-overlay src dst k (omega arith) (omega arith))

c_str-part :
    (t : Bytes) (k n : ℕ)
    → IsText t
    → length t < n
    → c_str (overlay (take k (t ++ 0 ∷ [])) (replicate n 0)) ≡ some (take k t)
unfolding overlay take c_str replicate
c_str-part t k zero h p = absurd (omega arith)
c_str-part t zero (suc n) h p = refl
c_str-part [] (suc k) (suc n) h p = refl
c_str-part (x ∷ t) (suc k) (suc n) h p = ground (arith, c_str-part t k n h.1 (omega arith))

is_prefix-take : (k : ℕ) (t : Bytes) → is_prefix (take k t) t ≡ true
unfolding is_prefix take
is_prefix-take zero t = refl
is_prefix-take (suc k) [] = refl
is_prefix-take (suc k) (x ∷ t) = ground (arith, is_prefix-take k t)

abbrev pub source : Bytes
source = sample ++ 0 ∷ []

-- The segment after `k` bytes of the text and its zero.
abbrev pub written : ℕ → Bytes
written k = overlay (take k source) (replicate k_size 0)

abbrev pub IsCopied : OnePc → ℕ → Type 0
IsCopied o_none k = k ≡ 0
IsCopied o_start k = k ≡ 0
IsCopied o_attach k = k ≡ 0
IsCopied (o_copy copied) k = (k ≡ copied) × (k < 15)
IsCopied o_detach k = k ≡ 15
IsCopied (o_exit true) k = k ≡ 15
IsCopied (o_exit false) k = Unit

abbrev pub overs : OnePc → TwoPc → ℕ
overs one two = one_over one + two_over two

abbrev pub theres : OnePc → TwoPc → ℕ
theres o_none w_none = 0
theres o_none two = 1
theres one w_none = 1
theres one two = 2

-- Before a `fork` there is no child; `wait` has counted children that have ended.
abbrev pub IsWaited : MainPc → OnePc → TwoPc → Type 0
IsWaited m_get one two = (one ≡ o_none) × (two ≡ w_none)
IsWaited m_fork1 one two = (one ≡ o_none) × (two ≡ w_none)
IsWaited m_fork2 one two = (two ≡ w_none) × (theres one two ≡ 1)
IsWaited (m_wait left) one two = (left ≤ 2) × (2 ≤ overs one two + left) × (theres one two ≡ 2)
IsWaited m_remove one two = overs one two ≡ 2
IsWaited (m_exit true) one two = overs one two ≡ 2
IsWaited (m_exit false) one two = ((one ≡ o_none) × (two ≡ w_none)) ⊎ (overs one two ≡ 2)

abbrev pub IsWritten : MainPc → ℕ → Bytes → Type 0
IsWritten m_get k segment = Unit
IsWritten (m_exit success) k segment = Unit
IsWritten _ k segment = segment ≡ written k

-- A line that shows a first part of the text, or shows nothing of it.
abbrev pub IsPart : Line → Type 0
IsPart (shown (some text)) = is_prefix text sample ≡ true
IsPart (shown none) = ⊥
IsPart _ = Unit

pub overs_le : (one : OnePc) (two : TwoPc) → overs one two ≤ 2
overs_le one two = ground arith

pub record Sound (s : State) : Type 0 where
  pub k : ℕ
  pub copied : IsCopied s.one k
  pub waited : IsWaited s.main s.one s.two
  pub segment_eq : IsWritten s.main k s.segment
  pub parts : All IsPart s.lines

-- A child that is there and goes on leaves the count of `main` as it is, or raises it.
pub one-IsWaited :
    (main : MainPc) (one one' : OnePc) (two : TwoPc)
    → one ≢ o_none
    → one' ≢ o_none
    → one_over one ≡ 0
    → one_over one' ≤ 1
    → IsWaited main one two
    → IsWaited main one' two
one-IsWaited main one one' two there still going over h = ground (arith, there, still, h)

pub two-IsWaited :
    (main : MainPc) (one : OnePc) (two two' : TwoPc)
    → two ≢ w_none
    → two' ≢ w_none
    → two_over two ≡ 0
    → two_over two' ≤ 1
    → IsWaited main one two
    → IsWaited main one two'
two-IsWaited main one two two' there still going over h = ground (arith, there, still, h)

pub segment-IsPart : (k : ℕ) → IsPart (shown (c_str (written k)))
segment-IsPart k =
    subst (λ t. IsPart (shown t)) (sym (c_str-part sample k k_size (omega arith) (omega arith)))
      (is_prefix-take k sample)

pub written-suc :
    (k : ℕ) (segment : Bytes)
    → k < 15
    → segment ≡ written k
    → set segment k (get_or source k) ≡ written (suc k)
written-suc k segment p e =
    ap (λ g. set g k (get_or source k)) e
    ∙ set-overlay source (replicate k_size 0) k (omega arith)
        (omega (arith, length-replicate {A = ℕ} k_size 0))

pub IsWritten-suc :
    (main : MainPc) (k : ℕ) (segment : Bytes)
    → k < 15
    → IsWritten main k segment
    → IsWritten main (suc k) (set segment k (get_or source k))
IsWritten-suc m_get k segment p h = tt
IsWritten-suc m_fork1 k segment p h = written-suc k segment p h
IsWritten-suc m_fork2 k segment p h = written-suc k segment p h
IsWritten-suc (m_wait left) k segment p h = written-suc k segment p h
IsWritten-suc m_remove k segment p h = written-suc k segment p h
IsWritten-suc (m_exit success) k segment p h = tt

-- The segment is there while a child may read it.
pub segment_there :
    (main : MainPc) (one : OnePc) (k : ℕ) (segment : Bytes)
    → IsWaited main one w_show
    → IsWritten main k segment
    → segment ≡ written k
segment_there m_get one k segment w h = ground (arith, w)
segment_there m_fork1 one k segment w h = h
segment_there m_fork2 one k segment w h = h
segment_there (m_wait left) one k segment w h = h
segment_there m_remove one k segment w h = h
segment_there (m_exit true) one k segment w h = ground (arith, w)
segment_there (m_exit false) one k segment w h = ground (arith, w)
