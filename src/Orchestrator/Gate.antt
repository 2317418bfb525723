-- ===== src/Orchestrator/Gate.antt =====
-- When a market is open to a trade: `validate` of apps/server/services/service.trade-orchestrator.ts.
use highgarden.Base.{
  ◌↔◌, sym, refl, subst, ℕ, ◌<◌, ◌≡◌, ◌≢◌, ◌⊎◌, Bool, true, false, Option, none, some, arith,
  Option-cases, inl, inr,
}
use highgarden.Base.Int.{abs}
use highgarden.Database.{
  Side, Outcome, yes_outcome, no_outcome, MarketStatus, open_market, paused_market, resolved_market,
  cancelled_market, truthy, empty_text,
}
use highgarden.Trade.{
  World, MarketRow, PolyMarketRow, ExposureRow, Services, Settings, ok, ResolvedMarket, ◌>>=◌,
  find_market,
}
use highgarden.SolanaTrade.{market_row}
use highgarden.Orchestrator.{validate, shape_market, is_paused, is_resolved, over_cap}

pub validate-frame :
    (st : Settings) (sv : Services) (id : ℕ) (side : Side) (outcome : Outcome) (w : World)
    → (validate st sv id side outcome w).1 ≡ w
unfolding validate ◌>>=◌
validate-frame st sv id side o w = ground arith

-- The checks of `validate`, as they stand there.
abbrev Checked : Settings → Services → ℕ → World → MarketRow → ℕ → PolyMarketRow → Type 0
Checked st sv id w row pda poly =
    (sv.db_up find_market ≡ true)
    × (market_row id w ≡ some row)
    × (truthy row.solana_market_pda ≡ some pda)
    × (is_paused row ≡ false)
    × (is_resolved row.status ≡ false)
    × (sv.now < row.end_at)
    × (over_cap st.unhedged_delta_cap_usd row.exposure ≡ false)
    × (row.polymarket ≡ some poly)

-- The breaker is not set and the exposure is below the cap; a market without a row has no exposure.
abbrev pub IsWithin : ℕ → Option ExposureRow → Type 0
IsWithin limit exposure =
    (exposure ≡ none)
    ⊎ ((e : ExposureRow) × (exposure ≡ some e) × (e.paused ≡ false) × (abs e.unhedged_usd < limit))

-- The market's row, its account on Solana and its Polymarket row, when it is open to trades.
abbrev pub IsOpen : Settings → Services → ℕ → World → MarketRow → ℕ → PolyMarketRow → Type 0
IsOpen st sv id w row pda poly =
    (sv.db_up find_market ≡ true)
    × (market_row id w ≡ some row)
    × (row.solana_market_pda ≡ some pda)
    × (pda ≢ empty_text)
    × ((row.status ≡ open_market) ⊎ (row.status ≡ cancelled_market))
    × (sv.now < row.end_at)
    × IsWithin st.unhedged_delta_cap_usd row.exposure
    × (row.polymarket ≡ some poly)

-- The fields of the row that a trade uses, with this token.
abbrev pub shaped_with : MarketRow → ℕ → PolyMarketRow → Side → Outcome → ℕ → ResolvedMarket
shaped_with row pda poly side outcome token = record {
  id = row.id;
  poly_market_id = row.poly_market_id;
  solana_market_pda = pda;
  yes_token_id = poly.yes_token_id;
  no_token_id = poly.no_token_id;
  tick_size = poly.tick_size;
  neg_risk = poly.neg_risk;
  polymarket_side = side;
  outcome = outcome;
  token_id = token;
}

-- The market that a trade of this outcome gets.
abbrev pub IsShaped : ResolvedMarket → MarketRow → ℕ → PolyMarketRow → Side → Outcome → Type 0
IsShaped m row pda poly side outcome =
    ((outcome ≡ yes_outcome) × (m ≡ shaped_with row pda poly side outcome poly.yes_token_id))
    ⊎ ((outcome ≡ no_outcome) × (m ≡ shaped_with row pda poly side outcome poly.no_token_id))

truthy-some : (o : Option ℕ) (t : ℕ) → (truthy o ≡ some t) ↔ ((o ≡ some t) × (t ≢ empty_text))
truthy-some none t = (λ h. cc, λ h. cc)
truthy-some (some s) t = (λ h. (ground arith, ground arith), λ (at, text). ground arith)

abbrev breaker_of : Option ExposureRow → Bool
breaker_of none = false
breaker_of (some e) = e.paused

within_iff :
    (limit : ℕ) (exposure : Option ExposureRow)
    → ((breaker_of exposure ≡ false) × (over_cap limit exposure ≡ false)) ↔ IsWithin limit exposure
within_iff limit none = (λ h. inl refl, λ h. (refl, refl))
within_iff limit (some e) = (
  λ (off, low). inr (e, refl, off, ground arith),
  λ h. elim h [ inl gone ↦ absurd cc | inr (f, same, off, low) ↦ (ground arith, ground arith) ],
)

-- A status that is neither of the two refused.
tradable_iff :
    (status : MarketStatus) (breaker : Bool)
    → ((elim status [ paused_market ↦ true | _ ↦ breaker ] ≡ false) × (is_resolved status ≡ false))
      ↔ (((status ≡ open_market) ⊎ (status ≡ cancelled_market)) × (breaker ≡ false))
tradable_iff open_market b = (λ (off, k). (inl refl, off), λ (k, off). (off, refl))
tradable_iff cancelled_market b = (λ (off, k). (inr refl, off), λ (k, off). (off, refl))
tradable_iff paused_market b = (λ (off, k). cc, λ (k, off). elim k [ inl e ↦ cc | inr e ↦ cc ])
tradable_iff resolved_market b = (λ (off, k). cc, λ (k, off). elim k [ inl e ↦ cc | inr e ↦ cc ])

running :
    (limit : ℕ) (row : MarketRow)
    → ((is_paused row ≡ false)
        × (is_resolved row.status ≡ false)
        × (over_cap limit row.exposure ≡ false))
      ↔ (((row.status ≡ open_market) ⊎ (row.status ≡ cancelled_market))
          × IsWithin limit row.exposure)
running limit row = (
  λ (paused, resolved, low).
      let (status, off) =
        (tradable_iff row.status (breaker_of row.exposure)).0 (paused, resolved) in
      (status, (within_iff limit row.exposure).0 (off, low)),
  λ (status, within).
      let (off, low) = (within_iff limit row.exposure).1 within in
      let (paused, resolved) =
        (tradable_iff row.status (breaker_of row.exposure)).1 (status, off) in
      (paused, resolved, low),
)

outcomes_differ : ◌≡◌ {A = Outcome} yes_outcome no_outcome → ⊥
outcomes_differ e = cc

shaped :
    (m : ResolvedMarket) (row : MarketRow) (pda : ℕ) (poly : PolyMarketRow) (side : Side)
    (outcome : Outcome)
    → (m ≡ shape_market row pda poly side outcome) ↔ IsShaped m row pda poly side outcome
unfolding shape_market
shaped m row pda poly side yes_outcome = (
  λ e. inl (refl, e),
  λ h. elim h [ inl (_, e) ↦ e | inr (other, _) ↦ absurd (outcomes_differ other) ],
)
shaped m row pda poly side no_outcome = (
  λ e. inr (refl, e),
  λ h. elim h [ inl (is_yes, _) ↦ absurd (outcomes_differ (sym is_yes)) | inr (_, e) ↦ e ],
)

passes_if :
    (st : Settings) (sv : Services) (id : ℕ) (side : Side) (outcome : Outcome) (w : World)
    (row : MarketRow) (pda : ℕ) (poly : PolyMarketRow)
    → Checked st sv id w row pda poly
    → (validate st sv id side outcome w).0 ≡ ok (shape_market row pda poly side outcome)
unfolding validate ◌>>=◌
passes_if st sv id side o w row pda poly h = ground arith

passes-Checked :
    (st : Settings) (sv : Services) (id : ℕ) (side : Side) (outcome : Outcome) (w : World)
    (m : ResolvedMarket)
    → (validate st sv id side outcome w).0 ≡ ok m
    → (row : MarketRow) × (pda : ℕ) × (poly : PolyMarketRow) × Checked st sv id w row pda poly
      × (m ≡ shape_market row pda poly side outcome)
unfolding validate ◌>>=◌
passes-Checked st sv id side o w m h = elim (Option-cases (market_row id w)) [
  | inl e ↦ absurd (ground arith)
  | inr (row, e) ↦ elim (Option-cases (truthy row.solana_market_pda)) [
    | inl e' ↦ absurd (ground arith)
    | inr (pda, e') ↦ elim (Option-cases row.polymarket) [
      | inl e'' ↦ absurd (ground arith)
      | inr (poly, e'') ↦ (row, pda, poly, ground arith, ground arith)
    ]
  ]
]

IsOpen-iff :
    (st : Settings) (sv : Services) (id : ℕ) (w : World) (row : MarketRow) (pda : ℕ)
    (poly : PolyMarketRow)
    → Checked st sv id w row pda poly ↔ IsOpen st sv id w row pda poly
IsOpen-iff st sv id w row pda poly = (
  λ (up, found, listed, paused, resolved, before, limit, linked).
      let (at, text) = (truthy-some row.solana_market_pda pda).0 listed in
      let (status, within) = (running st.unhedged_delta_cap_usd row).0 (paused, resolved, limit) in
      (up, found, at, text, status, before, within, linked),
  λ (up, found, at, text, status, before, within, linked).
      let (paused, resolved, limit) = (running st.unhedged_delta_cap_usd row).1 (status, within) in
      (
        up,
        found,
        (truthy-some row.solana_market_pda pda).1 (at, text),
        paused,
        resolved,
        before,
        limit,
        linked,
      ),
)

pub passes-IsOpen :
    (st : Settings) (sv : Services) (id : ℕ) (side : Side) (outcome : Outcome) (w : World)
    (m : ResolvedMarket)
    → (validate st sv id side outcome w).0 ≡ ok m
    → (row : MarketRow) × (pda : ℕ) × (poly : PolyMarketRow) × IsOpen st sv id w row pda poly
      × IsShaped m row pda poly side outcome
passes-IsOpen st sv id side o w m h =
    let (row, pda, poly, checked, same) = passes-Checked st sv id side o w m h in
    (
      row,
      pda,
      poly,
      (IsOpen-iff st sv id w row pda poly).0 checked,
      (shaped m row pda poly side o).0 same,
    )

-- A trade passes the first check exactly when the database is up and the market's row is there, with an account on
-- Solana and a Polymarket row; its status is OPEN or CANCELLED, not PAUSED or RESOLVED; it has not ended; and it has no
-- exposure row, or one whose breaker is not set and whose unhedged amount, whatever its sign, is below the cap. What
-- the trade gets are that row's fields, with the YES token for YES and the NO token for NO.
pub validate_iff :
    (st : Settings) (sv : Services) (id : ℕ) (side : Side) (outcome : Outcome) (w : World)
    (m : ResolvedMarket)
    → ((validate st sv id side outcome w).0 ≡ ok m)
      ↔ (row : MarketRow) × (pda : ℕ) × (poly : PolyMarketRow) × IsOpen st sv id w row pda poly
        × IsShaped m row pda poly side outcome
validate_iff st sv id side o w m = (
  passes-IsOpen st sv id side o w m,
  λ (row, pda, poly, opened, same).
      subst (λ x. (validate st sv id side o w).0 ≡ ok x)
        (sym ((shaped m row pda poly side o).1 same))
        (passes_if st sv id side o w row pda poly ((IsOpen-iff st sv id w row pda poly).1 opened)),
)
