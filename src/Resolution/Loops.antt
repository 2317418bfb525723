-- ===== src/Resolution/Loops.antt =====
-- The loops over rows that a tick of apps/hedger/resolver or apps/hedger/reconcile has read before.
use highgarden.Base.{
  ℕ, ◌≡◌, ◌≢◌, refl, sym, ap, subst, ◌∙◌, inl, inr, Bool, true, Bool-cases, Option, none, some,
  is_some, not, List, [], ◌∷◌, ◌==◌, ==_iff, All,
}
use highgarden.Call.{Reply, ok, pure, throw_if, catch, ◌>>=◌}
use highgarden.Call.Frame.{
  Reply-cases, bind-value, catch-value, catch-throw, bind-frame, catch-frame,
}
use highgarden.Resolution.{
  ResolverStateRow, Resolution, ResolutionFailure, no_row, ResolutionCall, ResolutionServices, ask,
  untouched, for_each,
}
use highgarden.Resolution.Table.{
  put_state, changed, update_state, Listed, row_if, select_rows, is_due, due_rows,
}
use highgarden.Resolution.Stages.{InStages, ask_then, ask_alone, Keeps, bind-Keeps, catch-Keeps}

-- No two markets have one id.
abbrev pub AreDistinctIds : List ℕ → Type 0
AreDistinctIds [] = Unit
AreDistinctIds (i ∷ is) = All (λ j. j ≢ i) is × AreDistinctIds is

-- These rows, of different markets and all of this kind, still are as they were read.
abbrev pub AreCurrent :
    (ResolverStateRow → Type 0) → (ℕ → Option ResolverStateRow) → List Listed → Type 0
AreCurrent Q states [] = Unit
AreCurrent Q states (x ∷ xs) =
    (states x.0 ≡ some x.1) × Q x.1 × All (λ y. y.0 ≢ x.0) xs × AreCurrent Q states xs

-- Only the row of this market may differ.
abbrev pub IsLocal : ℕ → Resolution → Resolution → Type 0
IsLocal id u v = (y : ℕ) → y ≢ id → v.states y ≡ u.states y

abbrev pub StaysLocal : {A : Type 0} → ℕ → ResolutionCall A → Type 0
StaysLocal id m = (w : Resolution) → IsLocal id w (m w).1

module _ (id : ℕ) where
  pub bind-StaysLocal :
      {A B : Type 0} (m : ResolutionCall A) (f : A → ResolutionCall B)
      → StaysLocal id m
      → ((a : A) → StaysLocal id (f a))
      → StaysLocal id (m >>= f)
  bind-StaysLocal m f h k w =
      bind-frame (IsLocal id) (λ u v x p q y d. q y d ∙ p y d) m f w (h w) (λ a v. k a v)

  pub catch-StaysLocal :
      {A : Type 0} (m : ResolutionCall A) (h : ResolutionFailure → ResolutionCall A)
      → StaysLocal id m
      → ((e : ResolutionFailure) → StaysLocal id (h e))
      → StaysLocal id (catch m h)
  catch-StaysLocal m h p k w =
      catch-frame (IsLocal id) (λ u v x p q y d. q y d ∙ p y d) m h w (p w) (λ e v. k e v)

  pub read-StaysLocal :
      {A : Type 0} (sv : ResolutionServices) (read : Resolution → A)
      → StaysLocal id (ask sv read untouched)
  read-StaysLocal sv read w =
      ask_alone (λ r. IsLocal id w r.1) sv read untouched w (λ y d. refl) (λ y d. refl)

  pub put_state-IsLocal :
      (r : Option ResolverStateRow) (w : Resolution) → IsLocal id w (put_state id r w)
  put_state-IsLocal r w y d = elim (Bool-cases (y == id)) [
    | inl e ↦ absurd (d ((==_iff y id).0 e))
    | inr e ↦ rw e refl
  ]

  pub update_state-StaysLocal :
      (sv : ResolutionServices) (f : ResolverStateRow → ResolverStateRow)
      → StaysLocal id (update_state sv id f)
  unfolding update_state
  update_state-StaysLocal sv f w =
      ask_then (λ (r : Reply ResolutionFailure (Unit {0}) × Resolution). IsLocal id w r.1) sv
        (λ w. is_some (w.states id)) (λ w. put_state id (changed f (w.states id)) w)
        (λ found. throw_if (not found) no_row) w (put_state-IsLocal (changed f (w.states id)) w)
        (λ y d. refl)

-- What a body throws is only logged, so the loop goes on.
quiet_returns :
    (m : ResolutionCall (Unit {0})) (w : Resolution) → (catch m (λ e. pure tt) w).0 ≡ ok tt
quiet_returns m w = elim (Reply-cases (m w).0) [
  | inl (a, e) ↦
      ap (λ (r : Reply ResolutionFailure (Unit {0}) × Resolution). r.0)
        (catch-value m (λ e. pure tt) w e)
  | inr (x, e) ↦
      ap (λ (r : Reply ResolutionFailure (Unit {0}) × Resolution). r.0)
        (catch-throw m (λ e. pure tt) w e)
]

keep_current :
    (Q : ResolverStateRow → Type 0) (u v : Resolution) (id : ℕ) (xs : List Listed)
    → IsLocal id u v
    → All (λ y. y.0 ≢ id) xs
    → AreCurrent Q u.states xs
    → AreCurrent Q v.states xs
keep_current Q u v id [] same apart h = tt
keep_current Q u v id (x ∷ xs) same apart (at, is, fresh, rest) =
    (same x.0 apart.0 ∙ at, is, fresh, keep_current Q u v id xs same apart.1 rest)

module _ (sv : ResolutionServices) where
  -- A loop whose body keeps the stages on any state.
  pub for_each-Keeps :
      {A : Type 0} (f : A → ResolutionCall (Unit {0}))
      → ((a : A) → Keeps sv (f a))
      → (xs : List A) → Keeps sv (for_each f xs)
  unfolding for_each
  for_each-Keeps f h [] w rows = rows
  for_each-Keeps f h (x ∷ xs) w rows =
      bind-Keeps sv (catch (f x) (λ e. pure tt)) (λ _. for_each f xs)
        (catch-Keeps sv (f x) (λ e. pure tt) (h x) (λ e v k. k)) (λ _. for_each-Keeps f h xs) w rows

  -- A loop over rows that still are as they were read, whose body keeps the stages there and touches its row only.
  pub for_each-InStages :
      (Q : ResolverStateRow → Type 0) (f : Listed → ResolutionCall (Unit {0}))
      → ((x : Listed) (w : Resolution)
          → w.states x.0 ≡ some x.1
          → Q x.1
          → InStages sv w
          → InStages sv (f x w).1)
      → ((x : Listed) → StaysLocal x.0 (f x))
      → (xs : List Listed) (w : Resolution) → AreCurrent Q w.states xs
      → InStages sv w
      → InStages sv (for_each f xs w).1
  unfolding for_each
  for_each-InStages Q f keeps local [] w current rows = rows
  for_each-InStages Q f keeps local (x ∷ xs) w (at, is, fresh, current) rows =
      let quiet : ResolutionCall (Unit {0}) = catch (f x) (λ e. pure tt) in
      let kept : InStages sv (quiet w).1 =
        catch-frame (λ u v. InStages sv u → InStages sv v) (λ u v y p q i. q (p i)) (f x)
          (λ e. pure tt) w (λ i. keeps x w at is i) (λ e v i. i) rows in
      let near : IsLocal x.0 w (quiet w).1 =
        catch-StaysLocal x.0 (f x) (λ e. pure tt) (local x) (λ e v y d. refl) w in
      let first : (quiet w).0 ≡ ok tt = quiet_returns (f x) w in
      subst (λ (r : Reply ResolutionFailure (Unit {0}) × Resolution). InStages sv r.1)
        (sym (bind-value quiet (λ _. for_each f xs) w first))
        (for_each-InStages Q f keeps local xs (quiet w).1
          (keep_current Q w (quiet w).1 x.0 xs near fresh current) kept)

module _ (p : ResolverStateRow → Bool) (states : ℕ → Option ResolverStateRow) where
  select_rows_apart :
      (k : ℕ) (ids : List ℕ) → All (λ i. i ≢ k) ids → All (λ x. x.0 ≢ k) (select_rows p states ids)
  select_rows_apart k [] h = tt
  select_rows_apart k (id ∷ ids) h = go (states id) (select_rows_apart k ids h.1)
    where
      go :
          (r : Option ResolverStateRow)
          → All (λ x. x.0 ≢ k) (select_rows p states ids)
          → All (λ x. x.0 ≢ k) (row_if p id r (select_rows p states ids))
      go none rest = rest
      go (some r) rest = elim (Bool-cases (p r)) [ inl e ↦ rw e (h.0, rest) | inr e ↦ rw e rest ]

  pub select_rows-AreCurrent :
      (Q : ResolverStateRow → Type 0)
      → ((r : ResolverStateRow) → p r ≡ true → Q r)
      → (ids : List ℕ) → AreDistinctIds ids
      → AreCurrent Q states (select_rows p states ids)
  select_rows-AreCurrent Q is [] d = tt
  select_rows-AreCurrent Q is (id ∷ ids) d =
      go (states id) refl (select_rows-AreCurrent Q is ids d.1)
    where
      go :
          (r : Option ResolverStateRow)
          → states id ≡ r
          → AreCurrent Q states (select_rows p states ids)
          → AreCurrent Q states (row_if p id r (select_rows p states ids))
      go none e rest = rest
      go (some r) e rest = elim (Bool-cases (p r)) [
        | inl picked ↦ rw picked (e, is r picked, select_rows_apart id ids d.0, rest)
        | inr left_out ↦ rw left_out rest
      ]

module _ (sv : ResolutionServices) (cutoff : ℕ) where
  All-due_rows : (P : Listed → Type 0) (xs : List Listed) → All P xs → All P (due_rows sv cutoff xs)
  All-due_rows P [] h = tt
  All-due_rows P (x ∷ xs) h = elim (Bool-cases (is_due sv cutoff x)) [
    | inl e ↦ rw e (h.0, All-due_rows P xs h.1)
    | inr e ↦ rw e (All-due_rows P xs h.1)
  ]

  pub due_rows-AreCurrent :
      (Q : ResolverStateRow → Type 0) (states : ℕ → Option ResolverStateRow) (xs : List Listed)
      → AreCurrent Q states xs
      → AreCurrent Q states (due_rows sv cutoff xs)
  due_rows-AreCurrent Q states [] h = tt
  due_rows-AreCurrent Q states (x ∷ xs) (at, is, fresh, rest) =
      elim (Bool-cases (is_due sv cutoff x)) [
        | inl e ↦
            rw e
              (at, is, All-due_rows (λ y. y.0 ≢ x.0) xs fresh, due_rows-AreCurrent Q states xs rest)
        | inr e ↦ rw e (due_rows-AreCurrent Q states xs rest)
      ]
