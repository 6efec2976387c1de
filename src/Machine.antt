-- ===== src/Machine.antt =====
-- State machines: a step that a thread, a process or the system can take is a function into Option, which
-- is none where the step is blocked or the program has ended.
use mathlib.Core.Path.{subst}
use linux_app_samp.Base.{
  length, ℕ, zero, suc, ◌+◌, ◌≤◌, ◌<◌, ◌≡◌, refl, ap, ◌∙◌, ◌⊎◌, inl, inr, Option, none, some, List,
  [], ◌∷◌, arith,
}

-- What a machine can come to from a state.
pub data Reached {S M : Type 0} (next : M → S → Option S) (start : S) : S → Type 0 where
  here : Reached next start start
  after : (s s' : S) (m : M) → Reached next start s → next m s ≡ some s' → Reached next start s'

abbrev pub then_next : {S : Type 0} → Option S → (S → Option S) → Option S
then_next none k = none
then_next (some s) k = k s

-- A property of a state, after a step that may be blocked.
abbrev pub IfSome : {S : Type 0} → (S → Type 0) → Option S → Type 0
IfSome P none = Unit
IfSome P (some s) = P s

IfSome-some : {S : Type 0} (P : S → Type 0) (o : Option S) (s : S) → o ≡ some s → IfSome P o → P s
IfSome-some P o s e = subst (IfSome P) e

abbrev pub All : {M : Type 0} → (M → Type 0) → List M → Type 0
All P [] = Unit
All P (m ∷ ms) = P m × All P ms

-- A step that is taken and leaves less to do.
abbrev pub Less : {S : Type 0} → (S → ℕ) → S → Option S → Type 0
Less work s none = ⊥
Less work s (some s') = work s' < work s

module _ {S M : Type 0} (next : M → S → Option S) where
  -- The steps of a list one after another; none if one of them cannot be made.
  unfoldable pub moves : List M → S → Option S
  moves [] s = some s
  moves (m ∷ ms) s = then_next (next m s) (moves ms)

  -- The rule of an invariant.
  pub Reached-invariant :
      (P : S → Type 0) (start : S)
      → P start
      → ((m : M) (s : S) → P s → IfSome P (next m s))
      → (s : S) → Reached next start s
      → P s
  Reached-invariant P start base keep _ here = base
  Reached-invariant P start base keep _ (after s s' m r e) =
      IfSome-some P (next m s) s' e (keep m s (Reached-invariant P start base keep s r))

  -- A run to a final state, by steps of one kind only.
  abbrev pub Ends : (M → Type 0) → (S → Type 0) → S → Type 0
  Ends Kind Final s = (ms : List M) × (s' : S) × (moves ms s ≡ some s') × Final s' × All Kind ms

  first_move :
      (Kind : M → Type 0) (Final P : S → Type 0) (work : S → ℕ) (m : M) (s : S) (o : Option S)
      → next m s ≡ o
      → Less work s o
      → IfSome P o
      → Kind m
      → ((s' : S) → P s' → work s' < work s → Ends Kind Final s')
      → Ends Kind Final s
  unfolding moves
  first_move Kind Final P work m s none e less sound kind later = absurd less
  first_move Kind Final P work m s (some s') e less sound kind later =
      let (ms, t, made, final, kinds) = later s' sound less in
      (m ∷ ms, t, ap (λ o. then_next o (moves ms)) e ∙ made, final, (kind, kinds))

  -- What `invariant` lets go on, up to a final state: some step of the kind leaves less to do.
  abbrev pub GoesOn : (M → Type 0) → (S → Type 0) → (S → ℕ) → S → Type 0
  GoesOn Kind Final work s = Final s ⊎ ((m : M) × Kind m × Less work s (next m s))

  Ends-within :
      (Kind : M → Type 0) (Final P : S → Type 0) (work : S → ℕ)
      → ((m : M) (s : S) → P s → IfSome P (next m s))
      → ((s : S) → P s → GoesOn Kind Final work s)
      → (fuel : ℕ) (s : S) → work s < fuel
      → P s
      → Ends Kind Final s
  unfolding moves
  Ends-within Kind Final P work keep go zero s p h = absurd (omega arith)
  Ends-within Kind Final P work keep go (suc fuel) s p h = elim (go s h) [
    | inl final ↦ ([], s, refl, final, tt)
    | inr (m, kind, less) ↦
        first_move Kind Final P work m s (next m s) refl less (keep m s h) kind
          (λ s' sound q. Ends-within Kind Final P work keep go fuel s' (omega arith) sound)
  ]

  -- From every state of the invariant, steps of the kind lead to a final state.
  pub Ends-work :
      (Kind : M → Type 0) (Final P : S → Type 0) (work : S → ℕ)
      → ((m : M) (s : S) → P s → IfSome P (next m s))
      → ((s : S) → P s → GoesOn Kind Final work s)
      → (s : S) → P s
      → Ends Kind Final s
  Ends-work Kind Final P work keep go s =
      Ends-within Kind Final P work keep go (suc (work s)) s (omega arith)

  move_then :
      (start : S) (m : M) (ms : List M) (s s' : S) (o : Option S)
      → next m s ≡ o
      → Reached next start s
      → ((t : S) → Reached next start t → moves ms t ≡ some s' → Reached next start s')
      → then_next o (moves ms) ≡ some s'
      → Reached next start s'
  move_then start m ms s s' none made r later e = absurd (ground (arith, e))
  move_then start m ms s s' (some t) made r later e = later t (after s t m r made) e

  -- Steps that can be made lead to a state that is reached.
  pub moves-Reached :
      (start : S) (ms : List M) (s s' : S)
      → Reached next start s
      → moves ms s ≡ some s'
      → Reached next start s'
  unfolding moves
  moves-Reached start [] s s' r e = IfSome-some (Reached next start) (some s) s' e r
  moves-Reached start (m ∷ ms) s s' r e =
      move_then start m ms s s' (next m s) refl r (λ t. moves-Reached start ms t s') e

  spent :
      (P : S → Type 0) (work : S → ℕ) (ms : List M) (s s' : S) (o : Option S)
      → IfSome P o
      → IfSome (λ t. work t < work s) o
      → ((t : S) → P t → moves ms t ≡ some s' → length ms + work s' ≤ work t)
      → then_next o (moves ms) ≡ some s'
      → suc (length ms) + work s' ≤ work s
  spent P work ms s s' none kept less later e = absurd (ground (arith, e))
  spent P work ms s s' (some t) kept less later e = omega (arith, less, later t kept e)

  -- If every step leaves less to do, then a run has no more steps than there is to do.
  pub moves-length :
      (P : S → Type 0) (work : S → ℕ)
      → ((m : M) (s : S) → P s → IfSome P (next m s))
      → ((m : M) (s : S) → P s → IfSome (λ t. work t < work s) (next m s))
      → (ms : List M) (s s' : S) → P s
      → moves ms s ≡ some s'
      → length ms + work s' ≤ work s
  unfolding moves
  moves-length P work keep less [] s s' h e =
      omega (arith, IfSome-some (λ t. work t ≤ work s) (some s) s' e (omega arith))
  moves-length P work keep less (m ∷ ms) s s' h e =
      spent P work ms s s' (next m s) (keep m s h) (less m s h)
        (λ t. moves-length P work keep less ms t s') e
