-- ===== src/Hedger/Tracked.antt =====
-- The hedge of a nonce through an attempt: apps/hedger/hedger/processor.ts.
use highgarden.Base.{
  ℕ, ◌+◌, ◌≡◌, refl, ap, ◌∙◌, Bool, true, false, Option, none, some, ◌==◌, leb, ltb, Bool-cases,
  inl, inr, arith, if◌then◌else◌,
}
use highgarden.Database.{FillRow}
use highgarden.Call.{pure, or_throw, ◌>>=◌, ◌>>◌}
use highgarden.Call.Frame.{Returns, bind-Returns, pure-Returns}
use highgarden.Trade.{OrderResult}
use highgarden.Hedger.Found.{fill_kept, hedge_kept, HedgeIs, updated}
use highgarden.Hedger.WalkBounds.{walk_book-Walked}
use highgarden.Hedger.{
  unexpected, initial_order_of, WalkResult, settle_exposure_of, apply_signed_delta, finalize_filled,
  finalize_walk, finalize_partial, finalize, execute_hedge, target_price_cents, place, walk_book,
  walk_input, add_exposure_at_first, Tables, HedgeFailure, HedgeCall, HedgeServices, Query,
  HedgeRow, HedgeJob, HedgeResult, ResolvedContext, find_by_nonce, find_by_fill_id, update_hedge,
  upsert_fill, upsert_hedge, resolve_context, is_terminal, attempt, lookup_user, lookup_market,
  pick_direction,
}

-- The rows of a nonce.
abbrev pub Has : ℕ → FillRow → HedgeRow → Tables → Type 0
Has nonce f row w =
    (find_by_nonce nonce w.fills ≡ some f) × (find_by_fill_id f.id w.hedges ≡ some row)

-- The nonce's hedge is there and done with.
abbrev pub Settled : ℕ → Tables → Type 0
Settled nonce w =
    (f : FillRow) × (row : HedgeRow) × Has nonce f row w × (is_terminal row.status ≡ true)

pub resolve_kept :
    (sv : HedgeServices) (job : HedgeJob) (w : Tables)
    → Returns (λ ctx v. Has job.nonce ctx.fill ctx.hedge v) (resolve_context sv job w)
unfolding resolve_context
resolve_kept sv job w =
    let Q : ResolvedContext → Tables → Type 0 = λ ctx v. Has job.nonce ctx.fill ctx.hedge v in
    bind-Returns Q (lookup_user sv job.user) _ w λ user _.
      let w₁ = (lookup_user sv job.user w).1 in
      bind-Returns Q (lookup_market sv job.market) _ w₁ λ market _.
        let w₂ = (lookup_market sv job.market w₁).1 in
        let direction = pick_direction job.side job.outcome market in
        bind-Returns Q (upsert_fill sv job user market.id) _ w₂ λ f e.
          let (found, _) = fill_kept sv job user market.id w₂ f e in
          let w₃ = (upsert_fill sv job user market.id w₂).1 in
          bind-Returns Q (upsert_hedge sv job direction f) _ w₃ λ r e'.
            let (there, same) = hedge_kept sv job direction f w₃ r e' in
            pure-Returns Q _ (upsert_hedge sv job direction f w₃).1
              (ap (find_by_nonce job.nonce) same ∙ found, there)

-- The attempt, with its rows found.
module _ (sv : HedgeServices) (job : HedgeJob) (ctx : ResolvedContext) where
  abbrev Track : (HedgeRow → Type 0) → Tables → Type 0
  Track P w =
      (find_by_nonce job.nonce w.fills ≡ some ctx.fill) × HedgeIs ctx.fill.id ctx.hedge.id P w

  abbrev Any : HedgeRow → Type 0
  Any r = Unit {0}

  abbrev Terminal : HedgeRow → Type 0
  Terminal r = is_terminal r.status ≡ true

  -- Neither the fills nor the hedges have changed.
  abbrev Apart : Tables → Tables → Type 0
  Apart w v = (v.fills ≡ w.fills) × (v.hedges ≡ w.hedges)

  carry : (P : HedgeRow → Type 0) (w v : Tables) → Apart w v → Track P w → Track P v
  carry P w v (same_fills, same_hedges) (found, (row, there, same, p)) = (
    ap (find_by_nonce job.nonce) same_fills ∙ found,
    (row, ap (find_by_fill_id ctx.fill.id) same_hedges ∙ there, same, p),
  )

  update-Track :
      (q : Query) (change : HedgeRow → HedgeRow) (P : HedgeRow → Type 0) (w : Tables)
      → ((r : HedgeRow) → ((change r).fill_id ≡ r.fill_id) × ((change r).id ≡ r.id) × P (change r))
      → Track Any w
      → Returns (λ _ v. Track P v) (update_hedge sv q ctx.hedge.id change w)
  update-Track q change P w changes (found, is) a h =
      let (is', same) = updated sv q ctx.fill.id ctx.hedge.id change P w changes is a h in
      (ap (find_by_nonce job.nonce) same ∙ found, is')

  settle-Apart : (n : ℕ) (w : Tables) → Apart w (settle_exposure_of sv ctx n w).1
  unfolding settle_exposure_of apply_signed_delta ◌>>=◌
  settle-Apart n w = ground arith

  perhaps-Apart :
      (n : ℕ) (b : Bool) (w : Tables)
      → Apart w ((if b then settle_exposure_of sv ctx n else pure tt) w).1
  perhaps-Apart n true w = settle-Apart n w
  perhaps-Apart n false w = (refl, refl)

  -- What follows the last update leaves the rows as they are.
  ended :
      (c : HedgeCall (Unit {0})) (r : HedgeResult) (w : Tables)
      → Apart w (c w).1
      → Track Terminal w
      → Returns (λ _ v. Track Terminal v) ((c >> pure r) w)
  ended c r w apart done =
      bind-Returns (λ _ v. Track Terminal v) c _ w λ _ _ _ _. carry Terminal w (c w).1 apart done

  finalize_filled-Terminal :
      (result : OrderResult) (w : Tables)
      → Track Any w
      → Returns (λ _ v. Track Terminal v) (finalize_filled sv ctx result w)
  unfolding finalize_filled is_terminal
  finalize_filled-Terminal result w has =
      bind-Returns (λ _ v. Track Terminal v) _ _ w
        λ _ e.
          ended (settle_exposure_of sv ctx result.filled_shares) _ _ (settle-Apart _ _)
            (update-Track _ _ Terminal w (λ r. (refl, refl, refl)) has tt e)

  finalize_walk-Terminal :
      (initial : OrderResult) (walk : WalkResult) (w : Tables)
      → Track Any w
      → Returns (λ _ v. Track Terminal v) (finalize_walk sv ctx initial walk w)
  unfolding finalize_walk is_terminal
  finalize_walk-Terminal initial walk w has =
      let total = initial.filled_shares + walk.total_filled_shares in
      elim (Bool-cases (leb ctx.fill.size total)) [
        | inl whole ↦ rw whole (
            bind-Returns (λ _ v. Track Terminal v) _ _ w
              λ _ e.
                ended (settle_exposure_of sv ctx total) _ _ (settle-Apart _ _)
                  (update-Track _ _ Terminal w (λ r. (refl, refl, refl)) has tt e))
        | inr short ↦ rw short (
            bind-Returns (λ _ v. Track Terminal v) _ _ w
              λ _ e.
                ended (if ltb 0 total then settle_exposure_of sv ctx total else pure tt) _ _
                  (perhaps-Apart total (ltb 0 total) _)
                  (update-Track _ _ Terminal w (λ r. (refl, refl, refl)) has tt e))
      ]

  walk_book-Apart : (input : _) (w : Tables) → Apart w (walk_book sv input w).1
  walk_book-Apart input w =
      let (_, (_, same, _, _)) = walk_book-Walked sv input w in
      (ap (λ (t : Tables). t.fills) same, ap (λ (t : Tables). t.hedges) same)

  or_throw-Apart :
      {A : Type 0} (o : Option A) (e : HedgeFailure) (w : Tables) → Apart w (or_throw o e w).1
  or_throw-Apart none e w = (refl, refl)
  or_throw-Apart (some a) e w = (refl, refl)

  target-Apart : (w : Tables) → Apart w (target_price_cents sv ctx w).1
  unfolding target_price_cents ◌>>=◌
  target-Apart w = ground arith

  -- A call that leaves the rows as they are goes in front.
  after :
      {A B : Type 0} (P : HedgeRow → Type 0) (call : HedgeCall A) (f : A → HedgeCall B) (w : Tables)
      → Apart w (call w).1
      → Track Any w
      → ((a : A) (v : Tables) → Track Any v → Returns (λ _ u. Track P u) (f a v))
      → Returns (λ _ u. Track P u) ((call >>= f) w)
  after P call f w apart has rest =
      bind-Returns (λ _ u. Track P u) call f w
        λ a _. rest a (call w).1 (carry Any w (call w).1 apart has)

  finalize-Terminal :
      (initial : OrderResult) (target : ℕ) (whole : Bool) (w : Tables)
      → Track Any w
      → Returns (λ _ v. Track Terminal v) (finalize sv ctx initial target whole w)
  unfolding finalize_partial
  finalize-Terminal initial target true w has = finalize_filled-Terminal initial w has
  finalize-Terminal initial target false w has =
      after Terminal _ _ w (walk_book-Apart (walk_input ctx initial target) w) has λ end' v has₁.
        after Terminal _ _ v (or_throw-Apart end' unexpected v) has₁
          λ walk u has₂. finalize_walk-Terminal initial walk u has₂

  execute-Terminal :
      (w : Tables) → Track Any w → Returns (λ _ v. Track Terminal v) (execute_hedge sv ctx w)
  unfolding execute_hedge place
  execute-Terminal w has =
      after Terminal (target_price_cents sv ctx) _ w (target-Apart w) has λ target v has₁.
        after Terminal (place sv (initial_order_of ctx target)) _ v (refl, refl) has₁
          λ initial u has₂. finalize-Terminal initial target initial.fully_filled u has₂

  first-Apart : (first : Bool) (w : Tables) → Apart w (add_exposure_at_first sv ctx first w).1
  unfolding apply_signed_delta ◌>>=◌
  first-Apart true w = ground arith
  first-Apart false w = (refl, refl)

  pub attempt-Terminal :
      (w : Tables) → Track Any w → Returns (λ _ v. Track Terminal v) (attempt sv job ctx w)
  unfolding attempt
  attempt-Terminal w has =
      bind-Returns (λ _ v. Track Terminal v) _ _ w
        λ _ e.
          after Terminal _ _ _ (first-Apart (job.attempts_made == 0) _)
            (update-Track _ _ Any w (λ r. (refl, refl, tt)) has tt e)
            λ _ v has₁. execute-Terminal v has₁
