-- ===== src/Sched/Places.antt =====
-- Where the threads can stand for each place of `main`.
use linux_app_samp.Base.{ltb, ◌==◌, if◌then◌else◌, ℕ, ◌+◌, ◌<◌, ◌≡◌, ◌⊎◌, true, false, arith}
use linux_app_samp.Sched.HandOff.{
  MainPc, f_create, f_created, f_wait, f_woken, f_join, f_done, ThreadPc, t_none, t_read, t_lock,
  t_gate, t_count, t_end, State, k_num_thread, m1_free, m2_free, signalled, is_end,
}

abbrev pub IsThrough : ℕ → ThreadPc → Type 0
IsThrough j t = (t ≡ t_gate j) ⊎ ((t ≡ t_count j) ⊎ (t ≡ t_end j))

-- Where thread `j` stands, for the place of `main`.
abbrev pub Place : MainPc → (j : ℕ) → ThreadPc → Type 0
Place (f_create i) j t = if ltb j i then t ≡ t_gate j else t ≡ t_none
Place (f_created i) j t =
    if ltb j i then t ≡ t_gate j else if j == i then (t ≡ t_read) ⊎ (t ≡ t_lock j) else t ≡ t_none
Place (f_wait i) j t =
    if ltb j i then t ≡ t_gate j else if j == i then (t ≡ t_read) ⊎ (t ≡ t_lock j) else t ≡ t_none
Place (f_woken i) j t = if ltb j (i + 1) then t ≡ t_gate j else t ≡ t_none
Place (f_join i) j t =
    if ltb j i then t ≡ t_end j else if ltb j k_num_thread then IsThrough j t else t ≡ t_none
Place f_done j t = if ltb j k_num_thread then t ≡ t_end j else t ≡ t_none

-- The variable, while a thread may read it, and how far `main` has come.
abbrev pub Variable : MainPc → (loop : ℕ) → Type 0
Variable (f_create i) loop = (loop ≡ i) × (i < k_num_thread)
Variable (f_created i) loop = (loop ≡ i) × (i < k_num_thread)
Variable (f_wait i) loop = (loop ≡ i) × (i < k_num_thread)
Variable (f_woken i) loop = (loop ≡ i) × (i < k_num_thread)
Variable (f_join i) loop = i < k_num_thread
Variable f_done loop = Unit

-- What a thread does leaves every thread in its place.
module _ (i j : ℕ) (t : ThreadPc) where
  pub read_place :
      (m : MainPc) (loop : ℕ)
      → Place m i t_read
      → Variable m loop
      → Place m j t
      → Place m j (if i == j then t_lock loop else t)
  read_place (f_create k) loop here v there = ground (arith, here, v, there)
  read_place (f_created k) loop here v there = ground (arith, here, v, there)
  read_place (f_wait k) loop here v there = ground (arith, here, v, there)
  read_place (f_woken k) loop here v there = ground (arith, here, v, there)
  read_place (f_join k) loop here v there = ground (arith, here, v, there)
  read_place f_done loop here v there = ground (arith, here, v, there)

  pub lock_place :
      (m : MainPc) (index : ℕ)
      → m1_free m ≡ true
      → Place m i (t_lock index)
      → Place m j t
      → Place (signalled m) j (if i == j then t_gate index else t)
  lock_place (f_create k) index free here there = ground (arith, free, here, there)
  lock_place (f_created k) index free here there = ground (arith, free, here, there)
  lock_place (f_wait k) index free here there = ground (arith, free, here, there)
  lock_place (f_woken k) index free here there = ground (arith, free, here, there)
  lock_place (f_join k) index free here there = ground (arith, free, here, there)
  lock_place f_done index free here there = ground (arith, free, here, there)

  pub gate_place :
      (m : MainPc) (index : ℕ)
      → m2_free m ≡ true
      → Place m i (t_gate index)
      → Place m j t
      → Place m j (if i == j then t_count index else t)
  gate_place (f_create k) index free here there = ground (arith, free, here, there)
  gate_place (f_created k) index free here there = ground (arith, free, here, there)
  gate_place (f_wait k) index free here there = ground (arith, free, here, there)
  gate_place (f_woken k) index free here there = ground (arith, free, here, there)
  gate_place (f_join k) index free here there = ground (arith, free, here, there)
  gate_place f_done index free here there = ground (arith, free, here, there)

  pub count_place :
      (m : MainPc) (index : ℕ)
      → Place m i (t_count index)
      → Place m j t
      → Place m j (if i == j then t_end index else t)
  count_place (f_create k) index here there = ground (arith, here, there)
  count_place (f_created k) index here there = ground (arith, here, there)
  count_place (f_wait k) index here there = ground (arith, here, there)
  count_place (f_woken k) index here there = ground (arith, here, there)
  count_place (f_join k) index here there = ground (arith, here, there)
  count_place f_done index here there = ground (arith, here, there)

-- The thread that `main` joins, and the threads after that.
pub through_end :
    (i : ℕ) (t : ThreadPc) → i < k_num_thread → is_end t ≡ true → Place (f_join i) i t → t ≡ t_end i
through_end i t few ended here = ground (arith, few, ended, here)

pub joined :
    (j : ℕ) (t : ThreadPc) (i : ℕ)
    → (j ≡ i → t ≡ t_end j)
    → Place (f_join i) j t
    → Place (f_join (i + 1)) j t
joined j t i this here = ground (arith, this, here)

pub all_joined :
    (j : ℕ) (t : ThreadPc) (i : ℕ)
    → ltb (i + 1) k_num_thread ≡ false
    → i < k_num_thread
    → (j ≡ i → t ≡ t_end j)
    → Place (f_join i) j t
    → Place f_done j t
all_joined j t i last few this here = ground (arith, last, few, this, here)

pub signalled-Variable : (m : MainPc) (loop : ℕ) → Variable m loop → Variable (signalled m) loop
signalled-Variable (f_create k) loop v = v
signalled-Variable (f_created k) loop v = v
signalled-Variable (f_wait k) loop v = v
signalled-Variable (f_woken k) loop v = v
signalled-Variable (f_join k) loop v = v
signalled-Variable f_done loop v = v

pub record Sound (s : State) : Type 0 where
  pub place : (j : ℕ) → Place s.main j (s.threads j)
  pub variable : Variable s.main s.loop
