-- ===== src/Argument/Numbers.antt =====
-- What each step keeps, and the number that a thread prints.
use mathlib.Core.Path.{subst}
use linux_app_samp.Base.{
  ltb, ◌==◌, if◌then◌else◌, Bool-cases, ℕ, ◌≤◌, ◌<◌, ◌≡◌, refl, sym, ap, ◌∙◌, ◌≢◌, ◌⊎◌, inl, inr,
  true, false, Option, none, some, List, ◌∷◌, arith,
}
use linux_app_samp.Machine.{IfSome, Reached-invariant}
use linux_app_samp.Argument.Threads.{
  Heap, MainPc, a_create, a_join, a_done, ThreadPc, t_none, t_read, t_print, t_free, t_end, State,
  Move, main_step, thread_step, k_num, with_thread, with_block, is_end, start, read_block,
  free_block, thread_next, create, main_next, next, Running,
}
use linux_app_samp.Argument.Places.{
  is_there, Place, InLoop, Owns, printed, tally, create_place, moved_place, join_place,
  create_InLoop, join_InLoop,
}
use linux_app_samp.Argument.Blocks.{
  Holds, changed, Owns-changed, Holds-moved, Owns-moved, above_more, Sound, IsFresh,
}

module _ (malloc : Heap → ℕ → ℕ) (fresh : IsFresh malloc) (s : State) (h : Sound s) where
  place_at : (m : MainPc) → s.main ≡ m → (j : ℕ) → Place m j (s.threads j)
  place_at m e = subst (λ m. (j : ℕ) → Place m j (s.threads j)) e h.place

  own_block : (j : ℕ) (t : ThreadPc) → s.threads j ≡ t → Owns s.heap j t
  own_block j t e = subst (Owns s.heap j) e (h.owns j)

  keep_create : (i : ℕ) → s.main ≡ a_create i → Sound (create i (malloc s.heap s.top) s)
  keep_create i e =
      let p = malloc s.heap s.top in
      let few : i < k_num = subst InLoop e h.in_loop in
      let unused : s.heap p ≡ none = fresh s.heap s.top h.above in
      let not_yet : s.threads i ≡ t_none = ground (arith, place_at (a_create i) e i) in
      record {
        place = λ j. create_place i j (s.threads j) p few (place_at (a_create i) e j);
        in_loop = create_InLoop i few;
        owns = λ j.
            Owns-moved (changed p (some i) s.heap) i j (t_read p) (s.threads j)
              (λ e. ground (arith, e))
              (λ ne. Owns-changed s.heap p i j (some i) (s.threads j) (inl unused) (h.owns j));
        kept = λ q v there.
            Holds-moved i v q (t_read p) (s.threads v) (λ e. ground (arith, e, there, h.kept q v))
              (λ ne. ground (arith, there, ne, h.kept q v));
        tallies = λ j. ground (arith, h.tallies j, not_yet);
        above = λ q le. above_more s.heap s.top p q i h.above le;
        whole = h.whole;
      }

  tally_of : (i j : ℕ) (t : ThreadPc) → s.threads i ≡ t → i ≡ j → tally j s.lines ≡ printed t
  tally_of i j t e q = h.tallies j ∙ ap printed (ap s.threads (sym q) ∙ e)

  -- A step of a thread that changes neither its block nor the heap.
  keep_move :
      (i : ℕ) (t t' : ThreadPc) (lines : List ℕ)
      → s.threads i ≡ t
      → is_there t ≡ true
      → is_end t ≡ false
      → is_there t' ≡ true
      → Owns s.heap i t'
      → ((p : ℕ) → Holds p t → Holds p t')
      → ((j : ℕ) → tally j lines ≡ (if i == j then printed t' else tally j s.lines))
      → Sound (with_thread i t' (record s { lines = lines }))
  keep_move i t t' lines e there runs there' own hold count = record {
    place = λ j.
        moved_place s.main i j t t' (s.threads j) there runs there'
          (subst (Place s.main i) e (h.place i)) (h.place j);
    in_loop = h.in_loop;
    owns = λ j.
        Owns-moved s.heap i j t' (s.threads j) (λ q. subst (λ j. Owns s.heap j t') q own)
          (λ ne. h.owns j);
    kept = λ p v has.
        Holds-moved i v p t' (s.threads v)
          (λ q. hold p (subst (Holds p) (ap s.threads (sym q) ∙ e) (h.kept p v has)))
          (λ ne. h.kept p v has);
    tallies = λ j. ground (arith, count j, h.tallies j);
    above = h.above;
    whole = h.whole;
  }

  keep_free :
      (i arg : ℕ) → s.threads i ≡ t_free arg → Sound (with_thread i t_end (with_block arg none s))
  keep_free i arg e =
      let own : s.heap arg ≡ some i = own_block i (t_free arg) e in
      let no_more : (p v : ℕ) → changed arg none s.heap p ≡ some v → i ≡ v → ⊥ = λ p v has q.
        let there : s.heap p ≡ some v = ground (arith, has) in
        let mine : Holds p (t_free arg) =
          subst (Holds p) (ap s.threads (sym q) ∙ e) (h.kept p v there) in
        ground (arith, has, mine) in
      record {
        place = λ j.
            moved_place s.main i j (t_free arg) t_end (s.threads j) refl refl refl
              (subst (Place s.main i) e (h.place i)) (h.place j);
        in_loop = h.in_loop;
        owns = λ j.
            Owns-moved (changed arg none s.heap) i j t_end (s.threads j) (λ q. tt)
              (λ ne. Owns-changed s.heap arg i j none (s.threads j) (inr (own, ne)) (h.owns j));
        kept = λ p v has.
            Holds-moved i v p t_end (s.threads v) (λ q. no_more p v has q)
              (λ ne. h.kept p v (ground (arith, has)));
        tallies = λ j. ground (arith, h.tallies j, tally_of i j (t_free arg) e);
        above = λ q le. ground (arith, h.above q le);
        whole = h.whole;
      }

  keep_thread : (i : ℕ) (t : ThreadPc) → s.threads i ≡ t → IfSome Sound (thread_next i t s)
  keep_thread i t_none e = tt
  keep_thread i (t_read arg) e =
      subst (λ o. Sound (read_block i arg o s)) (sym (own_block i (t_read arg) e))
        (keep_move i (t_read arg) (t_print arg i) s.lines e refl refl refl
          (own_block i (t_read arg) e, refl) (λ p q. q)
          (λ j. ground (arith, tally_of i j (t_read arg) e)))
  keep_thread i (t_print arg v) e =
      let own = own_block i (t_print arg v) e in
      keep_move i (t_print arg v) (t_free arg) (v ∷ s.lines) e refl refl refl own.0 (λ p q. q)
        (λ j. ground (arith, own.1, tally_of i j (t_print arg v) e))
  keep_thread i (t_free arg) e =
      subst (λ o. Sound (free_block i arg o s)) (sym (own_block i (t_free arg) e))
        (keep_free i arg e)
  keep_thread i t_end e = tt

  keep_main : (m : MainPc) → s.main ≡ m → IfSome Sound (main_next malloc m s)
  keep_main (a_create i) e = keep_create i e
  keep_main (a_join i) e = elim (Bool-cases (is_end (s.threads i))) [
    | inl ended ↦ rw ended (record {
      place = λ j.
          join_place i j (s.threads j) (λ q. ap (λ k. is_end (s.threads k)) q ∙ ended)
            (place_at (a_join i) e j);
      in_loop = join_InLoop i;
      owns = h.owns;
      kept = h.kept;
      tallies = h.tallies;
      above = h.above;
      whole = h.whole;
    })
    | inr runs ↦ rw runs tt
  ]
  keep_main a_done e = tt

printed_limit :
    (m : MainPc) (j : ℕ) (t : ThreadPc)
    → InLoop m
    → Place m j t
    → printed t ≤ (if ltb j k_num then 1 else 0)
printed_limit (a_create i) j t few here = ground (arith, few, here)
printed_limit (a_join i) j t few here = ground (arith, few, here)
printed_limit a_done j t few here = ground (arith, here)

module _ (malloc : Heap → ℕ → ℕ) (fresh : IsFresh malloc) (s : State) (h : Sound s) where
  all_free : s.main ≡ a_done → (p : ℕ) (block : Option ℕ) → s.heap p ≡ block → block ≡ none
  all_free e p none there = refl
  all_free e p (some v) there =
      absurd (ground (arith, h.kept p v there, place_at malloc fresh s h a_done e v))

  at_end :
      (j p : ℕ) (m : MainPc)
      → s.main ≡ m
      → (s.main ≢ a_done) ⊎ ((tally j s.lines ≡ (if ltb j k_num then 1 else 0)) × (s.heap p ≡ none))
  at_end j p (a_create i) e = inl (λ q. ground (arith, e, q))
  at_end j p (a_join i) e = inl (λ q. ground (arith, e, q))
  at_end j p a_done e = inr (
    ground (arith, h.tallies j, place_at malloc fresh s h a_done e j),
    all_free e p (s.heap p) refl,
  )

module _ (malloc : Heap → ℕ → ℕ) (fresh : IsFresh malloc) where
  pub next-Sound : (m : Move) (s : State) → Sound s → IfSome Sound (next malloc m s)
  unfolding next
  next-Sound main_step s h = keep_main malloc fresh s h s.main refl
  next-Sound (thread_step i) s h = keep_thread malloc fresh s h i (s.threads i) refl

  pub Running-Sound : (s : State) → Running malloc s → Sound s
  Running-Sound =
      Reached-invariant (next malloc) Sound start
        (record {
          place = λ j. ground arith;
          in_loop = omega arith;
          owns = λ j. tt;
          kept = λ p v has. ground (arith, has);
          tallies = λ j. refl;
          above = λ p le. refl;
          whole = refl;
        })
        next-Sound

  -- Whichever blocks `malloc` gives and in whatever order the threads run: no block is used that is not
  -- allocated; each number below ten has been printed at most once, and no other; and once `main` has
  -- returned, each has been printed, and all blocks are free again.
  pub numbers_once :
      (s : State) (j p : ℕ)
      → Running malloc s
      → (s.broken ≡ false)
        × (tally j s.lines ≤ (if ltb j k_num then 1 else 0))
        × ((s.main ≢ a_done)
            ⊎ ((tally j s.lines ≡ (if ltb j k_num then 1 else 0)) × (s.heap p ≡ none)))
  numbers_once s j p r =
      let h = Running-Sound s r in
      (
        h.whole,
        ground (arith, h.tallies j, printed_limit s.main j (s.threads j) h.in_loop (h.place j)),
        at_end malloc fresh s h j p s.main refl,
      )
