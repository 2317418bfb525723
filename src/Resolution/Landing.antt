-- ===== src/Resolution/Landing.antt =====
-- What `send_resolve_to_solana` of apps/hedger/resolver/index.ts does to the rows of apps/hedger/db/resolver.ts.
use highgarden.Base.{
  ℕ, ◌≡◌, refl, sym, ap, subst, ◌∙◌, inl, inr, true, false, Bool-cases, Option, none, some, List,
  ◌∷◌,
}
use highgarden.Call.{Reply, ok, err, gets, ◌>>=◌}
use highgarden.Call.Frame.{bind-value, bind-throw}
use highgarden.Database.{Outcome}
use highgarden.Resolution.{
  ResolverStage, pending, polymarket_resolved, solana_resolved, redeemed, ResolverStateRow,
  SentResolve, Submission, Resolution, ResolutionFailure, unconfirmed, not_sent, ResolutionCall,
  arrived, ResolutionServices, pda_of, resolve_market,
}
use highgarden.Resolution.Table.{forwarded}
use highgarden.Resolution.Stages.{HasStage, RowOk, InStages, counted}

abbrev pub submission : ℕ → Outcome → Submission
submission p o = record { market_pda = p; outcome = o }

-- The transaction was sent, and Solana has these.
abbrev pub in_flight : ResolutionServices → ℕ → Outcome → Resolution → List Submission → Resolution
in_flight sv p o w sub = record (counted w) {
  sent = record { market_pda = p; outcome = o; signature = sv.signature w.calls } ∷ w.sent;
  submitted = sub;
}

abbrev Answer : Type 0
Answer = Reply ResolutionFailure ℕ × Resolution

module _ (sv : ResolutionServices) (p : ℕ) (o : Outcome) (w : Resolution) where
  resolve_refused : sv.up w.calls ≡ false → resolve_market sv p o w ≡ (err not_sent, counted w)
  unfolding resolve_market
  resolve_refused e = rw e refl

  resolve_confirmed :
      sv.up w.calls ≡ true
      → sv.confirms w.calls ≡ true
      → resolve_market sv p o w ≡ (ok (sv.signature w.calls), in_flight sv p o w (arrived sv p o w))
  unfolding resolve_market
  resolve_confirmed e c = rw (e, c) refl

  resolve_unconfirmed :
      sv.up w.calls ≡ true
      → sv.confirms w.calls ≡ false
      → resolve_market sv p o w ≡ (err unconfirmed, in_flight sv p o w (arrived sv p o w))
  unfolding resolve_market
  resolve_unconfirmed e c = rw (e, c) refl

-- The three ways of `resolve_market`: a signature, none for what was sent, not sent. Of the first two, nothing says what
-- came of it on Solana.
pub resolve_then :
    {B : Type 0} (P : Reply ResolutionFailure B × Resolution → Type 0) (sv : ResolutionServices)
    (p : ℕ) (o : Outcome) (f : ℕ → ResolutionCall B) (w : Resolution)
    → ((sub : List Submission) → P (f (sv.signature w.calls) (in_flight sv p o w sub)))
    → ((sub : List Submission) → P (err unconfirmed, in_flight sv p o w sub))
    → P (err not_sent, counted w)
    → P ((resolve_market sv p o >>= f) w)
resolve_then P sv p o f w confirmed unheard refused =
    let send = resolve_market sv p o in
    let sub = arrived sv p o w in
    let threw : (e : ResolutionFailure) (v : Resolution)
        → send w ≡ (err e, v)
        → P (err e, v)
        → P ((send >>= f) w) =
      λ e v same h.
        subst P
          (sym (
            bind-throw send f w (ap (λ (r : Answer). r.0) same)
            ∙ ap (λ (r : Answer). (err e, r.1)) same))
          h in
    elim (Bool-cases (sv.up w.calls)) [
      | inr e ↦ threw _ _ (resolve_refused sv p o w e) refused
      | inl e ↦ elim (Bool-cases (sv.confirms w.calls)) [
        | inr c ↦ threw _ _ (resolve_unconfirmed sv p o w e c) (unheard sub)
        | inl c ↦
            let same = resolve_confirmed sv p o w e c in
            subst P
              (sym (
                bind-value send f w (ap (λ (r : Answer). r.0) same)
                ∙ ap (λ (r : Answer). f (sv.signature w.calls) r.1) same))
              (confirmed sub)
      ]
    ]

HasStage-more :
    (s : SentResolve) (sent : List SentResolve) (pda : Option ℕ) (stage : ResolverStage)
    (r : ResolverStateRow)
    → HasStage sent pda stage r
    → HasStage (s ∷ sent) pda stage r
HasStage-more s sent pda pending r h = h
HasStage-more s sent pda polymarket_resolved r h = h
HasStage-more s sent pda solana_resolved r (p, o, sig, t, a, b, c, d, e) =
    (p, o, sig, t, a, b, c, d, inr e)
HasStage-more s sent pda redeemed r ((p, o, sig, t, a, b, c, d, e), k) =
    ((p, o, sig, t, a, b, c, d, inr e), k)

RowOk-more :
    (s : SentResolve) (sent : List SentResolve) (pda : Option ℕ) (r : Option ResolverStateRow)
    → RowOk sent pda r
    → RowOk (s ∷ sent) pda r
RowOk-more s sent pda none h = tt
RowOk-more s sent pda (some r) h = HasStage-more s sent pda r.stage r h

-- What is sent says nothing against a row.
pub in_flight-InStages :
    (sv : ResolutionServices) (p : ℕ) (o : Outcome) (w : Resolution) (sub : List Submission)
    → InStages sv w
    → InStages sv (in_flight sv p o w sub)
in_flight-InStages sv p o w sub rows y =
    RowOk-more (record { market_pda = p; outcome = o; signature = sv.signature w.calls }) w.sent
      (pda_of (sv.markets y)) (w.states y) (rows y)

-- A row that Polymarket has resolved is forwarded by the signature of a transaction with its winner.
pub forwarded-RowOk :
    (sent : List SentResolve) (p : ℕ) (o : Outcome) (pda : Option ℕ) (sig at : ℕ)
    (r : ResolverStateRow)
    → pda ≡ some p
    → r.winning_outcome ≡ some o
    → HasStage sent pda polymarket_resolved r
    → RowOk
        (record { market_pda = p; outcome = o; signature = sig } ∷ sent)
        pda
        (some (forwarded sig at r))
forwarded-RowOk sent p o pda sig at r e winner ((t, time), _, _) =
    (p, o, sig, t, e, winner, refl, time, inl (refl, refl, refl))

pub gets_then :
    {A B : Type 0} (P : Reply ResolutionFailure B × Resolution → Type 0) (read : Resolution → A)
    (f : A → ResolutionCall B) (w : Resolution)
    → P (f (read w) w)
    → P ((gets read >>= f) w)
unfolding ◌>>=◌
gets_then P read f w h = h
