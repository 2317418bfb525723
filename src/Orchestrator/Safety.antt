-- ===== src/Orchestrator/Safety.antt =====
-- The checks in front of a trade, and what they write: apps/server/services/service.trade-orchestrator.ts.
use highgarden.Base.{◌≡◌, refl, sym, subst, ◌⊎◌, inl, inr}
use highgarden.Trade.{
  World, Services, Settings, TradeRequest, TradeResult, ResolvedMarket, Failure, Result, ok, err,
  Action, ◌>>=◌, Untouched, Untouched-refl, Untouched-trans, bind-value, bind-throw, Reply-cases,
}
use highgarden.Validation.{Mode, hedge, no_hedge}
use highgarden.Pretrade.{assert_pretrade}
use highgarden.Pretrade.Refusals.{assert_pretrade-Untouched}
use highgarden.Orchestrator.{
  validate, pretrade_args, execute, execute_no_hedge, hedge_and_settle, price_and_settle,
}
use highgarden.Orchestrator.Gate.{validate-frame}

pub validate-Untouched :
    (st : Settings) (sv : Services) (req : TradeRequest) (w : World)
    → Untouched w (validate st sv req.market_db_id req.side req.outcome w).1
validate-Untouched st sv req w =
    subst (Untouched w) (sym (validate-frame st sv req.market_db_id req.side req.outcome w))
      (Untouched-refl w)

-- The first check accepted the market and the checks at its book were passed.
abbrev pub Passed : Settings → Services → TradeRequest → Mode → World → Type 0
Passed st sv req mode w =
    (market : ResolvedMarket) × ((validate st sv req.market_db_id req.side req.outcome w).0
      ≡ ok market)
    × ((assert_pretrade st sv (pretrade_args req market (sv.preflight_top market.token_id) mode)
          w).0
        ≡ ok tt)

-- An error, and nothing written but the validator's caches.
abbrev pub Refused : World → Result TradeResult × World → Type 0
Refused w r = (e : Failure) × (r.0 ≡ err e) × Untouched w r.1

Refused-after :
    (w v : World) (r : Result TradeResult × World) → Untouched w v → Refused v r → Refused w r
Refused-after w v r p (e, h, q) = (e, h, Untouched-trans p q)

-- A call that writes nothing goes in front: it throws, or the rest decides.
Refused-bind :
    {A : Type 0} (P : Type 0) (m : Action A) (f : A → Action TradeResult) (w : World)
    → Untouched w (m w).1
    → ((a : A) → (m w).0 ≡ ok a → Refused (m w).1 (f a (m w).1) ⊎ P)
    → Refused w ((m >>= f) w) ⊎ P
Refused-bind P m f w same rest = elim (Reply-cases (m w).0) [
  | inr (e, h) ↦ inl (subst (Refused w) (sym (bind-throw m f w h)) (e, refl, same))
  | inl (a, h) ↦ elim (rest a h) [
    | inl refused ↦ inl (
        subst (Refused w) (sym (bind-value m f w h))
          (Refused-after w (m w).1 (f a (m w).1) same refused))
    | inr passed ↦ inr passed
  ]
]

gate :
    (st : Settings) (sv : Services) (req : TradeRequest) (mode : Mode)
    (rest : ResolvedMarket → Action TradeResult) (w : World)
    → Refused w (
        (validate st sv req.market_db_id req.side req.outcome >>= λ market.
        assert_pretrade st sv (pretrade_args req market (sv.preflight_top market.token_id) mode)
        >>= λ _. rest market)
          w)
      ⊎ Passed st sv req mode w
gate st sv req mode rest w =
    Refused-bind (Passed st sv req mode w) (validate st sv req.market_db_id req.side req.outcome) _
      w (validate-Untouched st sv req w)
      λ market open'.
        let args = pretrade_args req market (sv.preflight_top market.token_id) mode in
        let check = assert_pretrade st sv args in
        let v = (validate st sv req.market_db_id req.side req.outcome w).1 in
        let same : v ≡ w = validate-frame st sv req.market_db_id req.side req.outcome w in
        Refused-bind (Passed st sv req mode w) check _ v (assert_pretrade-Untouched st sv args v)
          λ _ passed. inr (market, open', subst (λ u. (check u).0 ≡ ok tt) same passed)

-- A hedged trade is refused with nothing written but the validator's caches (no netting, no order,
-- no quote, no transaction), unless its market was accepted by the first check and the checks at the
-- book read for it were passed.
pub execute_gated :
    (st : Settings) (sv : Services) (req : TradeRequest) (w : World)
    → Refused w (execute st sv req w) ⊎ Passed st sv req hedge w
unfolding execute
execute_gated st sv req w = gate st sv req hedge (hedge_and_settle st sv req) w

-- A trade without a hedge is refused with nothing written but the validator's caches (no quote, no transaction), unless
-- its market was accepted by the first check and the checks at the book read for it were passed.
pub execute_no_hedge_gated :
    (st : Settings) (sv : Services) (req : TradeRequest) (w : World)
    → Refused w (execute_no_hedge st sv req w) ⊎ Passed st sv req no_hedge w
unfolding execute_no_hedge
execute_no_hedge_gated st sv req w =
    gate st sv req no_hedge (λ m. price_and_settle st sv req m (sv.preflight_top m.token_id)) w
