-- ===== src/Argument/Blocks.antt =====
-- The block that each thread has.
use linux_app_samp.Base.{
  ltb, ◌==◌, if◌then◌else◌, Bool-cases, ℕ, ◌+◌, ◌≤◌, ◌≡◌, ap, ◌≢◌, ◌⊎◌, inl, inr, false, Option,
  none, some, arith,
}
use linux_app_samp.Argument.Threads.{Heap, ThreadPc, t_none, t_read, t_print, t_free, t_end, State}
use linux_app_samp.Argument.Places.{Place, InLoop, Owns, printed, tally}

-- The block that a thread has.
abbrev pub Holds : (p : ℕ) → ThreadPc → Type 0
Holds p (t_read arg) = arg ≡ p
Holds p (t_print arg v) = arg ≡ p
Holds p (t_free arg) = arg ≡ p
Holds p _ = ⊥

abbrev pub changed : ℕ → Option ℕ → Heap → Heap
changed p v heap q = if p == q then v else heap q

pub other_block :
    (heap : Heap) (p q i j : ℕ) (v : Option ℕ)
    → (heap p ≡ none) ⊎ ((heap p ≡ some i) × (i ≢ j))
    → heap q ≡ some j
    → changed p v heap q ≡ some j
other_block heap p q i j v free there = elim (Bool-cases (p == q)) [
  | inl here ↦
      let e : p ≡ q = ground (arith, here) in absurd (ground (arith, free, there, ap heap e))
  | inr away ↦ rw away there
]

-- A block that is taken, or released by another thread, is none of the thread's.
pub Owns-changed :
    (heap : Heap) (p i j : ℕ) (v : Option ℕ) (t : ThreadPc)
    → (heap p ≡ none) ⊎ ((heap p ≡ some i) × (i ≢ j))
    → Owns heap j t
    → Owns (changed p v heap) j t
Owns-changed heap p i j v t_none free h = tt
Owns-changed heap p i j v (t_read arg) free h = other_block heap p arg i j v free h
Owns-changed heap p i j v (t_print arg w) free h = (other_block heap p arg i j v free h.0, h.1)
Owns-changed heap p i j v (t_free arg) free h = other_block heap p arg i j v free h
Owns-changed heap p i j v t_end free h = tt

-- Which thread has a block, after thread `i` has come to `t`.
pub Holds-moved :
    (i v p : ℕ) (t old : ThreadPc)
    → (i ≡ v → Holds p t)
    → (i ≢ v → Holds p old)
    → Holds p (if i == v then t else old)
Holds-moved i v p t old this other = elim (Bool-cases (i == v)) [
  | inl here ↦ rw here (this (ground (arith, here)))
  | inr away ↦ rw away (other (λ e. ground (arith, away, e)))
]

pub Owns-moved :
    (heap : Heap) (i j : ℕ) (t old : ThreadPc)
    → (i ≡ j → Owns heap j t)
    → ((i ≢ j) → Owns heap j old)
    → Owns heap j (if i == j then t else old)
Owns-moved heap i j t old this other = elim (Bool-cases (i == j)) [
  | inl here ↦ rw here (this (ground (arith, here)))
  | inr away ↦ rw away (other (λ e. ground (arith, away, e)))
]

pub record Sound (s : State) : Type 0 where
  pub place : (j : ℕ) → Place s.main j (s.threads j)
  pub in_loop : InLoop s.main
  pub owns : (j : ℕ) → Owns s.heap j (s.threads j)
  pub kept : (p v : ℕ) → s.heap p ≡ some v → Holds p (s.threads v)
  pub tallies : (j : ℕ) → tally j s.lines ≡ printed (s.threads j)
  pub above : (p : ℕ) → s.top ≤ p → s.heap p ≡ none
  pub whole : s.broken ≡ false

pub above_more :
    (heap : Heap) (top p q i : ℕ)
    → ((r : ℕ) → top ≤ r → heap r ≡ none)
    → (if ltb p top then top else p + 1) ≤ q
    → changed p (some i) heap q ≡ none
above_more heap top p q i above le = elim (Bool-cases (ltb p top)) [
  | inl below ↦ ground (arith, below, le, above q (ground (arith, below, le)))
  | inr not_below ↦ ground (arith, not_below, le, above q (ground (arith, not_below, le)))
]

-- `malloc` gives a block that is not in use.
abbrev pub IsFresh : (Heap → ℕ → ℕ) → Type 0
IsFresh malloc =
    (heap : Heap) (top : ℕ) → ((p : ℕ) → top ≤ p → heap p ≡ none) → heap (malloc heap top) ≡ none
