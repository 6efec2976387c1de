-- ===== src/Argument/Places.antt =====
-- Where the threads can stand for each place of `main`, and what belongs to a thread.
use linux_app_samp.Base.{
  ltb, ◌==◌, if◌then◌else◌, Bool-cases, ℕ, ◌+◌, ◌≤◌, ◌<◌, ◌≡◌, ◌⊎◌, inl, inr, Bool, true, false,
  some, List, [], ◌∷◌, arith,
}
use linux_app_samp.Argument.Threads.{
  Heap, MainPc, a_create, a_join, a_done, ThreadPc, t_none, t_read, t_print, t_free, t_end, k_num,
  is_end, create_at, join_at,
}

abbrev pub is_there : ThreadPc → Bool
is_there t_none = false
is_there _ = true

-- Where thread `j` stands.
abbrev pub Place : MainPc → (j : ℕ) → ThreadPc → Type 0
Place (a_create i) j t = is_there t ≡ ltb j i
Place (a_join i) j t = (is_there t ≡ ltb j k_num) × ((i ≤ j) ⊎ (is_end t ≡ true))
Place a_done j t = (is_there t ≡ ltb j k_num) × ((k_num ≤ j) ⊎ (is_end t ≡ true))

abbrev pub InLoop : MainPc → Type 0
InLoop (a_create i) = i < k_num
InLoop (a_join i) = i < k_num
InLoop a_done = Unit

-- The block of thread `j` holds its number until it is released.
abbrev pub Owns : Heap → (j : ℕ) → ThreadPc → Type 0
Owns heap j (t_read arg) = heap arg ≡ some j
Owns heap j (t_print arg v) = (heap arg ≡ some j) × (v ≡ j)
Owns heap j (t_free arg) = heap arg ≡ some j
Owns heap j _ = Unit

-- What a thread has printed, and what it has allocated.
abbrev pub printed : ThreadPc → ℕ
printed (t_free arg) = 1
printed t_end = 1
printed _ = 0

abbrev pub same : ℕ → ℕ → ℕ
same i j = if i == j then 1 else 0

abbrev pub tally : ℕ → List ℕ → ℕ
tally j [] = 0
tally j (x ∷ xs) = same x j + tally j xs

pub create_place :
    (i j : ℕ) (t : ThreadPc) (arg : ℕ)
    → i < k_num
    → Place (a_create i) j t
    → Place (create_at (i + 1)) j (if i == j then t_read arg else t)
create_place i j t arg few here = elim (Bool-cases (ltb (i + 1) k_num)) [
  | inl more ↦ rw more (ground (arith, few, here, more))
  | inr last ↦ rw last (ground (arith, few, here, last), inl (omega arith))
]

-- A thread that goes on, in front of its end.
pub moved_place :
    (m : MainPc) (i j : ℕ) (ti ti' t : ThreadPc)
    → is_there ti ≡ true
    → is_end ti ≡ false
    → is_there ti' ≡ true
    → Place m i ti
    → Place m j t
    → Place m j (if i == j then ti' else t)
moved_place (a_create k) i j ti ti' t there runs there' this here =
    ground (arith, there, there', this, here)
moved_place (a_join k) i j ti ti' t there runs there' this here =
    ground (arith, there, runs, there', this, here)
moved_place a_done i j ti ti' t there runs there' this here =
    ground (arith, there, runs, there', this, here)

pub join_place :
    (i j : ℕ) (t : ThreadPc)
    → (j ≡ i → is_end t ≡ true)
    → Place (a_join i) j t
    → Place (join_at (i + 1)) j t
join_place i j t joined here = elim (Bool-cases (ltb (i + 1) k_num)) [
  | inl more ↦ rw more (here.0, ground (arith, joined, here.1))
  | inr last ↦ rw last (here.0, ground (arith, joined, here.1, here.0, last))
]

pub create_InLoop : (i : ℕ) → i < k_num → InLoop (create_at (i + 1))
create_InLoop i few = elim (Bool-cases (ltb (i + 1) k_num)) [
  | inl more ↦ rw more (ground (arith, more))
  | inr last ↦ rw last (omega arith)
]

pub join_InLoop : (i : ℕ) → InLoop (join_at (i + 1))
join_InLoop i = elim (Bool-cases (ltb (i + 1) k_num)) [
  | inl more ↦ rw more (ground (arith, more))
  | inr last ↦ rw last tt
]
