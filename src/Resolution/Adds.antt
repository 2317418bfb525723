-- ===== src/Resolution/Adds.antt =====
-- What lands on Solana during calls of apps/hedger/resolver/index.ts.
use highgarden.Base.{
  All-append, ℕ, ◌≡◌, refl, sym, ap, ◌∙◌, inl, inr, ◌&&◌, not, Bool-cases, is_some, List, [], ◌∷◌,
  ◌++◌, append_assoc, All,
}
use highgarden.Call.{Reply, pure, throw_if, catch}
use highgarden.Call.Frame.{bind-frame, catch-frame}
use highgarden.Database.{Outcome}
use highgarden.Resolution.{
  ResolverStateRow, Submission, Resolution, ResolutionFailure, no_row, ResolutionCall,
  ResolutionServices, ask, untouched, for_each, was_resolved, arrived, resolve_market,
}
use highgarden.Resolution.Table.{put_state, changed, update_state}
use highgarden.Resolution.Stages.{ask_then, ask_alone}
use highgarden.Resolution.Landing.{submission}

-- More has landed on Solana, and all of it is allowed.
abbrev pub Adds : (Submission → Type 0) → Resolution → Resolution → Type 0
Adds A u v = (new : List Submission) × (v.submitted ≡ new ++ u.submitted) × All A new

module _ (A : Submission → Type 0) where
  pub Adds-compose : (u v w : Resolution) → Adds A u v → Adds A v w → Adds A u w
  Adds-compose u v w (new, e, h) (new', e', h') = (
    new' ++ new,
    e' ∙ ap (λ l. new' ++ l) e ∙ sym (append_assoc new' new u.submitted),
    All-append A new' new h' h,
  )

  pub update_state-Adds :
      (sv : ResolutionServices) (id : ℕ) (f : ResolverStateRow → ResolverStateRow) (w : Resolution)
      → Adds A w (update_state sv id f w).1
  unfolding update_state
  update_state-Adds sv id f w =
      ask_then (λ (d : Reply ResolutionFailure (Unit {0}) × Resolution). Adds A w d.1) sv
        (λ w. is_some (w.states id)) (λ w. put_state id (changed f (w.states id)) w)
        (λ found. throw_if (not found) no_row) w ([], refl, tt) ([], refl, tt)

  pub read-Adds :
      {B : Type 0} (sv : ResolutionServices) (read : Resolution → B) (w : Resolution)
      → Adds A w (ask sv read untouched w).1
  read-Adds sv read w =
      ask_alone (λ d. Adds A w d.1) sv read untouched w ([], refl, tt) ([], refl, tt)

  arrived-Adds :
      (sv : ResolutionServices) (p : ℕ) (o : Outcome) (w : Resolution)
      → A (submission p o)
      → (new : List Submission) × (arrived sv p o w ≡ new ++ w.submitted) × All A new
  arrived-Adds sv p o w h =
      elim (Bool-cases (sv.lands w.calls && not (was_resolved p w.submitted))) [
        | inl e ↦ rw e (submission p o ∷ [], refl, (h, tt))
        | inr e ↦ rw e ([], refl, tt)
      ]

  pub resolve_market-Adds :
      (sv : ResolutionServices) (p : ℕ) (o : Outcome) (w : Resolution)
      → A (submission p o)
      → Adds A w (resolve_market sv p o w).1
  unfolding resolve_market
  resolve_market-Adds sv p o w h = elim (Bool-cases (sv.up w.calls)) [
    | inl e ↦ rw e (arrived-Adds sv p o w h)
    | inr e ↦ rw e ([], refl, tt)
  ]

  pub for_each-Adds :
      {B : Type 0} (f : B → ResolutionCall (Unit {0})) (xs : List B)
      → All (λ x. (w : Resolution) → Adds A w (f x w).1) xs
      → (w : Resolution) → Adds A w (for_each f xs w).1
  unfolding for_each
  for_each-Adds f [] h w = ([], refl, tt)
  for_each-Adds f (x ∷ xs) h w =
      bind-frame (Adds A) Adds-compose (catch (f x) (λ e. pure tt)) (λ _. for_each f xs) w
        (catch-frame (Adds A) Adds-compose (f x) (λ e. pure tt) w (h.0 w) (λ e v. ([], refl, tt)))
        (λ _ v. for_each-Adds f xs h.1 v)
