-- ===== src/Resolution/Staged.antt =====
-- The three loops on one table: apps/hedger/resolver, apps/hedger/reconcile and apps/hedger/market-status.
use highgarden.Base.{
  ℕ, ◌≡◌, refl, inl, inr, Bool-cases, Option, none, some, List, [], ◌∷◌, All, if◌then◌else◌,
}
use highgarden.Call.{Reply, pure, catch, ◌>>=◌}
use highgarden.Resolution.{
  MarketInfo, MarketState, Resolution, ResolutionFailure, ResolutionServices, untouched, for_each,
}
use highgarden.Resolution.Resolver.{resolver_tick}
use highgarden.Resolution.Reconciler.{reconciler_tick}
use highgarden.Resolution.MarketStatus.{
  CandidateMarket, is_candidate_market, candidates, list_candidates, check_market, status_tick,
}
use highgarden.Resolution.Stages.{InStages, counted, ask_then, Keeps, bind-Keeps, catch-Keeps}
use highgarden.Resolution.Loops.{AreDistinctIds}
use highgarden.Resolution.Redeems.{resolver_tick-Keeps}
use highgarden.Resolution.Rechecks.{reconciler_tick-Keeps}
use highgarden.Resolution.Mirrors.{check_market-Keeps}

pub data ResolutionTick : Type 0 where
  resolver_ticks reconciler_ticks status_ticks : ResolutionTick

abbrev pub resolution_step : ResolutionServices → ResolutionTick → Resolution → Resolution
resolution_step sv resolver_ticks w = (resolver_tick sv w).1
resolution_step sv reconciler_ticks w = (reconciler_tick sv w).1
resolution_step sv status_ticks w = (status_tick sv w).1

abbrev pub resolution_run : ResolutionServices → List ResolutionTick → Resolution → Resolution
resolution_run sv [] w = w
resolution_run sv (t ∷ ts) w = resolution_run sv ts (resolution_step sv t w)

module _ (sv : ResolutionServices) where
  abbrev IsListed : CandidateMarket → Type 0
  IsListed c = sv.markets c.id ≡ some c.info

  candidates-IsListed :
      (states : ℕ → MarketState) (ids : List ℕ) → All IsListed (candidates sv states ids)
  candidates-IsListed states [] = tt
  candidates-IsListed states (id ∷ ids) = go (sv.markets id) refl (candidates-IsListed states ids)
    where
      go :
          (m : Option MarketInfo)
          → sv.markets id ≡ m
          → All IsListed (candidates sv states ids)
          → All IsListed (elim m [
            | none ↦ candidates sv states ids
            | some m ↦
                if is_candidate_market m (states id)
                then record { id = id; info = m; state = states id } ∷ candidates sv states ids
                else candidates sv states ids
          ])
      go none e rest = rest
      go (some m) e rest = elim (Bool-cases (is_candidate_market m (states id))) [
        | inl picked ↦ rw picked (e, rest)
        | inr left_out ↦ rw left_out rest
      ]

  check_markets-Keeps :
      (cs : List CandidateMarket) → All IsListed cs → Keeps sv (for_each (check_market sv) cs)
  unfolding for_each
  check_markets-Keeps [] h = λ w rows. rows
  check_markets-Keeps (c ∷ cs) h =
      bind-Keeps sv (catch (check_market sv c) (λ e. pure tt)) (λ _. for_each (check_market sv) cs)
        (catch-Keeps sv (check_market sv c) (λ e. pure tt) (check_market-Keeps sv c h.0)
          (λ e w rows. rows))
        (λ _. check_markets-Keeps cs h.1)

  status_tick-Keeps : Keeps sv (status_tick sv)
  unfolding status_tick list_candidates
  status_tick-Keeps =
      catch-Keeps sv (list_candidates sv >>= for_each (check_market sv)) (λ e. pure tt)
        (λ w rows.
          ask_then (λ (d : Reply ResolutionFailure (Unit {0}) × Resolution). InStages sv d.1) sv
            (λ w. candidates sv w.market_states sv.market_ids) untouched
            (for_each (check_market sv)) w
            (check_markets-Keeps (candidates sv w.market_states sv.market_ids)
              (candidates-IsListed w.market_states sv.market_ids) (counted w) rows)
            rows)
        (λ e w rows. rows)

  resolution_step-Keeps :
      AreDistinctIds sv.market_ids
      → (t : ResolutionTick) (w : Resolution) → InStages sv w
      → InStages sv (resolution_step sv t w)
  resolution_step-Keeps distinct resolver_ticks = resolver_tick-Keeps sv distinct
  resolution_step-Keeps distinct reconciler_ticks = reconciler_tick-Keeps sv distinct
  resolution_step-Keeps distinct status_ticks = status_tick-Keeps

-- Whatever order the ticks of the resolver, the reconciler and the market-status poller come in, one at a time, whatever
-- Polymarket and Solana answer, whatever becomes of a transaction and whichever calls fail: where the markets have
-- different ids, every row of the resolver's table stays as its stage says. A pending row has no time, winner, signature
-- or redemption; one that Polymarket has resolved has a winner and a time, and a redemption only with a signature; the
-- signature of one that Solana has resolved is that of a `resolve_market` sent for the market's own account with the
-- row's winner, which need not have gone through; a redeemed one has a redemption besides.
pub resolution_run-InStages :
    (sv : ResolutionServices) (distinct : AreDistinctIds sv.market_ids)
    (ticks : List ResolutionTick) (w : Resolution)
    → InStages sv w
    → InStages sv (resolution_run sv ticks w)
resolution_run-InStages sv distinct [] w rows = rows
resolution_run-InStages sv distinct (t ∷ ts) w rows =
    resolution_run-InStages sv distinct ts (resolution_step sv t w)
      (resolution_step-Keeps sv distinct t w rows)
