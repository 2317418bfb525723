-- ===== src/Resolution/Stages.antt =====
-- The stages of apps/hedger/db/resolver.ts: what a row of each stage has, and how that survives a write of a row.
use highgarden.Base.{
  ℕ, suc, ◌≡◌, refl, sym, ap, subst, ◌∙◌, ◌⊎◌, inl, inr, Bool, true, false, Bool-cases, Option,
  none, some, is_some, or_else, List, [], ◌∷◌, ◌==◌, ==_iff, not, if◌then◌else◌,
}
use highgarden.Call.{Reply, ok, err, throw_if, catch, ◌>>=◌}
use highgarden.Call.Frame.{bind-value, bind-throw, bind-frame, catch-frame}
use highgarden.Database.{Outcome}
use highgarden.Resolution.{
  ResolverStage, pending, polymarket_resolved, solana_resolved, redeemed, ResolverStateRow,
  SentResolve, Resolution, ResolutionFailure, call_failed, ResolutionCall, ResolutionServices,
  no_row, ask, untouched, new_row, pda_of,
}
use highgarden.Resolution.Table.{put_state, changed, update_state, upsert_state}

-- This `resolve_market` was sent, and got this signature.
abbrev pub WasSent : ℕ → Outcome → ℕ → List SentResolve → Type 0
WasSent p o sig [] = ⊥
WasSent p o sig (s ∷ ss) =
    ((s.market_pda ≡ p) × (s.outcome ≡ o) × (s.signature ≡ sig)) ⊎ WasSent p o sig ss

-- The row has a winner and the time of Polymarket's resolution, and its signature is that of a `resolve_market` sent for
-- the market with this winner.
abbrev pub IsForwarded : List SentResolve → Option ℕ → ResolverStateRow → Type 0
IsForwarded sent pda r =
    (p : ℕ) × (o : Outcome) × (sig : ℕ) × (t : ℕ) × (pda ≡ some p)
    × (r.winning_outcome ≡ some o)
    × (r.solana_resolve_tx_sig ≡ some sig)
    × (r.polymarket_resolved_at ≡ some t)
    × WasSent p o sig sent

-- There is a signature, or neither a signature nor a redemption.
abbrev pub IsTraced : ResolverStateRow → Type 0
IsTraced r =
    ((r.solana_resolve_tx_sig ≡ none) × (r.polymarket_redeem_tx_hash ≡ none))
    ⊎ ((sig : ℕ) × (r.solana_resolve_tx_sig ≡ some sig))

abbrev pub HasStage : List SentResolve → Option ℕ → ResolverStage → ResolverStateRow → Type 0
HasStage sent pda pending r =
    (r.polymarket_resolved_at ≡ none)
    × (r.winning_outcome ≡ none)
    × (r.solana_resolve_tx_sig ≡ none)
    × (r.polymarket_redeem_tx_hash ≡ none)
HasStage sent pda polymarket_resolved r =
    ((t : ℕ) × (r.polymarket_resolved_at ≡ some t))
    × ((o : Outcome) × (r.winning_outcome ≡ some o))
    × IsTraced r
HasStage sent pda solana_resolved r = IsForwarded sent pda r
HasStage sent pda redeemed r =
    IsForwarded sent pda r × ((tx : ℕ) × (r.polymarket_redeem_tx_hash ≡ some tx))

abbrev pub RowOk : List SentResolve → Option ℕ → Option ResolverStateRow → Type 0
RowOk sent pda none = Unit
RowOk sent pda (some r) = HasStage sent pda r.stage r

-- Every row is as its stage says.
abbrev pub InStages : ResolutionServices → Resolution → Type 0
InStages sv w = (id : ℕ) → RowOk w.sent (pda_of (sv.markets id)) (w.states id)

abbrev pub counted : Resolution → Resolution
counted w = record w { calls = suc w.calls }

module _ {A : Type 0} (sv : ResolutionServices) (read : Resolution → A)
    (write : Resolution → Resolution) (w : Resolution) where
  ask_up : sv.up w.calls ≡ true → ask sv read write w ≡ (ok (read (counted w)), write (counted w))
  unfolding ask
  ask_up e = rw e refl

  ask_down : sv.up w.calls ≡ false → ask sv read write w ≡ (err call_failed, counted w)
  unfolding ask
  ask_down e = rw e refl

pub ask_then :
    {A B : Type 0} (P : Reply ResolutionFailure B × Resolution → Type 0) (sv : ResolutionServices)
    (read : Resolution → A) (write : Resolution → Resolution) (f : A → ResolutionCall B)
    (w : Resolution)
    → P (f (read (counted w)) (write (counted w)))
    → P (err call_failed, counted w)
    → P ((ask sv read write >>= f) w)
ask_then {A} P sv read write f w up down =
    let read_reply : Reply ResolutionFailure A × Resolution → Reply ResolutionFailure A =
      λ r. r.0 in
    elim (Bool-cases (sv.up w.calls)) [
      | inl e ↦
          let same = ask_up sv read write w e in
          subst P
            (sym (
              bind-value (ask sv read write) f w (ap read_reply same)
              ∙ ap (λ (r : Reply ResolutionFailure A × Resolution). f (read (counted w)) r.1) same))
            up
      | inr e ↦
          let same = ask_down sv read write w e in
          subst P
            (sym (
              bind-throw (ask sv read write) f w (ap read_reply same)
              ∙ ap (λ (r : Reply ResolutionFailure A × Resolution). (err call_failed, r.1)) same))
            down
    ]

pub ask_alone :
    {A : Type 0} (P : Reply ResolutionFailure A × Resolution → Type 0) (sv : ResolutionServices)
    (read : Resolution → A) (write : Resolution → Resolution) (w : Resolution)
    → P (ok (read (counted w)), write (counted w))
    → P (err call_failed, counted w)
    → P (ask sv read write w)
unfolding ask
ask_alone P sv read write w up down = elim (Bool-cases (sv.up w.calls)) [
  | inl e ↦ rw e up
  | inr e ↦ rw e down
]

module _ (sv : ResolutionServices) where
  -- The call keeps every row as its stage says.
  abbrev pub Keeps : {A : Type 0} → ResolutionCall A → Type 0
  Keeps m = (w : Resolution) → InStages sv w → InStages sv (m w).1

  abbrev Then : Resolution → Resolution → Type 0
  Then u v = InStages sv u → InStages sv v

  pub bind-Keeps :
      {A B : Type 0} (m : ResolutionCall A) (f : A → ResolutionCall B)
      → Keeps m
      → ((a : A) → Keeps (f a))
      → Keeps (m >>= f)
  bind-Keeps m f h k w = bind-frame Then (λ u v x p q i. q (p i)) m f w (h w) (λ a v. k a v)

  pub catch-Keeps :
      {A : Type 0} (m : ResolutionCall A) (h : ResolutionFailure → ResolutionCall A)
      → Keeps m
      → ((e : ResolutionFailure) → Keeps (h e))
      → Keeps (catch m h)
  catch-Keeps m h p k w = catch-frame Then (λ u v x p q i. q (p i)) m h w (p w) (λ e v. k e v)

  pub branch-Keeps :
      {A : Type 0} (b : Bool) (m k : ResolutionCall A)
      → Keeps m
      → Keeps k
      → Keeps (if b then m else k)
  branch-Keeps true m k h _ = h
  branch-Keeps false m k _ h = h

  pub read-Keeps : {A : Type 0} (read : Resolution → A) → Keeps (ask sv read untouched)
  read-Keeps read w h = ask_alone (λ r. InStages sv r.1) sv read untouched w h h

  pub put_state-InStages :
      (id : ℕ) (r : Option ResolverStateRow) (w : Resolution)
      → RowOk w.sent (pda_of (sv.markets id)) r
      → InStages sv w
      → InStages sv (put_state id r w)
  put_state-InStages id r w h rows y = elim (Bool-cases (y == id)) [
    | inl e ↦ rw e (subst (λ z. RowOk w.sent (pda_of (sv.markets z)) r) (sym ((==_iff y id).0 e)) h)
    | inr e ↦ rw e (rows y)
  ]

  pub update_state-InStages :
      (id : ℕ) (f : ResolverStateRow → ResolverStateRow) (w : Resolution)
      → RowOk w.sent (pda_of (sv.markets id)) (changed f (w.states id))
      → InStages sv w
      → InStages sv (update_state sv id f w).1
  unfolding update_state
  update_state-InStages id f w h rows =
      ask_then (λ (r : Reply ResolutionFailure (Unit {0}) × Resolution). InStages sv r.1) sv
        (λ w. is_some (w.states id)) (λ w. put_state id (changed f (w.states id)) w)
        (λ found. throw_if (not found) no_row) w
        (put_state-InStages id (changed f (w.states id)) (counted w) h rows) rows

  pub upsert_state-InStages :
      (id : ℕ) (f : ResolverStateRow → ResolverStateRow) (w : Resolution)
      → RowOk w.sent (pda_of (sv.markets id)) (some (f (or_else (w.states id) new_row)))
      → InStages sv w
      → InStages sv (upsert_state sv id f w).1
  unfolding upsert_state
  upsert_state-InStages id f w h rows =
      ask_alone (λ (r : Reply ResolutionFailure (Unit {0}) × Resolution). InStages sv r.1) sv
        (λ w. tt) (λ w. put_state id (some (f (or_else (w.states id) new_row))) w) w
        (put_state-InStages id (some (f (or_else (w.states id) new_row))) (counted w) h rows) rows
