-- ===== src/Resolution/Table.antt =====
-- The table of apps/hedger/db/resolver.ts.
use highgarden.Base.{
  ℕ, Bool, true, false, not, ◌&&◌, ◌||◌, Option, none, some, is_some, or_else, List, [], ◌∷◌, ◌==◌,
  leb, if◌then◌else◌,
}
use highgarden.Call.{pure, throw_if, ◌>>=◌}
use highgarden.Database.{Outcome}
use highgarden.Resolution.{
  ResolverStage, ResolverNote, ResolverStateRow, new_row, MarketKind, MarketInfo, Resolution,
  ResolutionCall, ResolutionServices, ask, untouched, pending, polymarket_resolved, solana_resolved,
  redeemed, standard, fast_moving, no_row,
}

abbrev pub put_state : ℕ → Option ResolverStateRow → Resolution → Resolution
put_state id r w = record w { states = λ y. if y == id then r else w.states y }

abbrev pub changed :
    (ResolverStateRow → ResolverStateRow) → Option ResolverStateRow → Option ResolverStateRow
changed f none = none
changed f (some r) = some (f r)

-- `update`, which throws where there is no row, and `upsert`, which creates it by the same fields.
unfoldable pub update_state :
    ResolutionServices → ℕ → (ResolverStateRow → ResolverStateRow) → ResolutionCall (Unit {0})
update_state sv id f =
    ask sv (λ w. is_some (w.states id)) (λ w. put_state id (changed f (w.states id)) w) >>= λ found.
    throw_if (not found) no_row

unfoldable pub upsert_state :
    ResolutionServices → ℕ → (ResolverStateRow → ResolverStateRow) → ResolutionCall (Unit {0})
upsert_state sv id f =
    ask sv (λ w. tt) (λ w. put_state id (some (f (or_else (w.states id) new_row))) w)

abbrev pub find_row : ResolutionServices → ℕ → ResolutionCall (Option ResolverStateRow)
find_row sv id = ask sv (λ w. w.states id) untouched

abbrev pub detected : Outcome → ℕ → ResolverStateRow → ResolverStateRow
detected outcome at r = record r {
  stage = polymarket_resolved;
  polymarket_resolved_at = some at;
  winning_outcome = some outcome;
}

abbrev pub record_polymarket_resolved :
    ResolutionServices → ℕ → Outcome → ℕ → ResolutionCall (Unit {0})
record_polymarket_resolved sv id outcome at = upsert_state sv id (detected outcome at)

abbrev pub forwarded : ℕ → ℕ → ResolverStateRow → ResolverStateRow
forwarded sig at r = record r {
  stage = solana_resolved;
  solana_resolve_tx_sig = some sig;
  solana_resolved_at = some at;
}

abbrev pub record_solana_resolved : ResolutionServices → ℕ → ℕ → ℕ → ResolutionCall (Unit {0})
record_solana_resolved sv id sig at = update_state sv id (forwarded sig at)

abbrev pub redeemed_by : ℕ → ℕ → ResolverStateRow → ResolverStateRow
redeemed_by tx at r = record r {
  stage = redeemed;
  polymarket_redeem_tx_hash = some tx;
  polymarket_redeemed_at = some at;
}

abbrev pub record_redeemed : ResolutionServices → ℕ → ℕ → ℕ → ResolutionCall (Unit {0})
record_redeemed sv id tx at = update_state sv id (redeemed_by tx at)

abbrev pub append_note : ResolutionServices → ℕ → ResolverNote → ResolutionCall (Unit {0})
append_note sv id note = upsert_state sv id (λ r. record r { notes = some note })

abbrev pub reverted : ResolverStateRow → ResolverStateRow
reverted r = record r { stage = pending; polymarket_resolved_at = none; winning_outcome = none }

abbrev pub revert_to_pending : ResolutionServices → ℕ → ResolutionCall (Unit {0})
revert_to_pending sv id = update_state sv id reverted

abbrev pub update_winning_outcome : ResolutionServices → ℕ → Outcome → ResolutionCall (Unit {0})
update_winning_outcome sv id outcome =
    update_state sv id (λ r. record r { winning_outcome = some outcome })

-- A row and its key.
abbrev pub Listed : Type 0
Listed = ℕ × ResolverStateRow

abbrev pub row_if :
    (ResolverStateRow → Bool) → ℕ → Option ResolverStateRow → List Listed → List Listed
row_if p id none rest = rest
row_if p id (some r) rest = if p r then (id, r) ∷ rest else rest

-- findMany
abbrev pub select_rows :
    (ResolverStateRow → Bool) → (ℕ → Option ResolverStateRow) → List ℕ → List Listed
select_rows p states [] = []
select_rows p states (id ∷ ids) = row_if p id (states id) (select_rows p states ids)

abbrev pub is_at_polymarket_resolved : ResolverStage → Bool
is_at_polymarket_resolved polymarket_resolved = true
is_at_polymarket_resolved _ = false

abbrev pub is_awaiting_solana : ResolverStateRow → Bool
is_awaiting_solana r = is_at_polymarket_resolved r.stage && not (is_some r.solana_resolve_tx_sig)

abbrev pub is_at_solana_resolved : ResolverStage → Bool
is_at_solana_resolved solana_resolved = true
is_at_solana_resolved _ = false

abbrev pub is_awaiting_redemption : ResolverStateRow → Bool
is_awaiting_redemption r =
    is_at_solana_resolved r.stage && not (is_some r.polymarket_redeem_tx_hash)

unfoldable pub list_awaiting_redemption : ResolutionServices → ResolutionCall (List Listed)
list_awaiting_redemption sv =
    ask sv (λ w. select_rows is_awaiting_redemption w.states sv.market_ids) untouched

unfoldable pub list_polymarket_resolved_pending_solana :
    ResolutionServices → ResolutionCall (List Listed)
list_polymarket_resolved_pending_solana sv =
    ask sv (λ w. select_rows is_awaiting_solana w.states sv.market_ids) untouched

abbrev pub is_fast : Option MarketInfo → Bool
is_fast none = false
is_fast (some m) = is_kind m.kind
  where
    is_kind : MarketKind → Bool
    is_kind fast_moving = true
    is_kind standard = false

abbrev pub is_before : Option ℕ → ℕ → Bool
is_before none cutoff = false
is_before (some t) cutoff = leb t cutoff

abbrev pub is_due : ResolutionServices → ℕ → Listed → Bool
is_due sv cutoff (id, r) = is_fast (sv.markets id) || is_before r.polymarket_resolved_at cutoff

abbrev pub due_rows : ResolutionServices → ℕ → List Listed → List Listed
due_rows sv cutoff [] = []
due_rows sv cutoff (x ∷ xs) =
    let rest = due_rows sv cutoff xs in if is_due sv cutoff x then x ∷ rest else rest

-- The second query, for the kinds, only where there are rows.
abbrev pub keep_due : ResolutionServices → ℕ → List Listed → ResolutionCall (List Listed)
keep_due sv cutoff [] = pure []
keep_due sv cutoff (x ∷ xs) = ask sv (λ w. due_rows sv cutoff (x ∷ xs)) untouched

unfoldable pub list_awaiting_solana_submission :
    ResolutionServices → ℕ → ResolutionCall (List Listed)
list_awaiting_solana_submission sv cutoff =
    ask sv
      (λ w.
        select_rows (λ r. is_awaiting_solana r && is_some r.winning_outcome) w.states sv.market_ids)
      untouched
    >>= keep_due sv cutoff
