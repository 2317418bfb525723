-- ===== src/Hedger/Recovery.antt =====
-- Boot recovery: `recover_in_flight` of apps/hedger/hedger/index.ts, with the queries that it makes in
-- apps/hedger/db/{hedge,fill,exposure}.ts.
use highgarden.Base.{
  ℕ, Bool, true, false, not, Option, none, some, List, [], ◌∷◌, ◌==◌, leb, select, update_where,
  if◌then◌else◌,
}
use highgarden.Base.Int.{ℤ, pos, ◌+ℤ◌, ◌-ℤ◌, abs}
use highgarden.Database.{HedgeStatus, pending, hedging, FillRow}
use highgarden.Call.{pure, gets, throw_if, modify, catch, ◌>>=◌, ◌>>◌}
use highgarden.Hedger.State.{unexpected, HedgeCall, HedgeRow, Exposure}
use highgarden.Hedger.Rows.{find_by_fill_id}
use highgarden.Hedger.Processor.{signed_notional_usd, is_terminal}

-- Which of its queries reach the database; the updates by the id of their row.
pub record RecoveryServices : Type 0 where
  pub list_stuck_up : Bool
  pub reset_up : ℕ → Bool
  pub list_fills_up : Bool
  pub list_exposures_up : Bool
  pub set_unhedged_up : ℕ → Bool

abbrev pub is_hedging : HedgeStatus → Bool
is_hedging hedging = true
is_hedging _ = false

unfoldable pub reset_to_pending : ℕ → List HedgeRow → List HedgeRow
reset_to_pending id = update_where (λ r. r.id == id) (λ r. record r { status = pending })

-- The `for` over the stuck rows.
unfoldable pub reset_all : RecoveryServices → List HedgeRow → HedgeCall (Unit {0})
reset_all sv [] = pure tt
reset_all sv (r ∷ rs) = do
  throw_if (not (sv.reset_up r.id)) unexpected
  modify λ h. record h { hedges = reset_to_pending r.id h.hedges }
  reset_all sv rs

unfoldable pub recover_stuck_hedging : RecoveryServices → HedgeCall (Unit {0})
recover_stuck_hedging sv = do
  throw_if (not sv.list_stuck_up) unexpected
  stuck ← gets (λ h. select (λ r. is_hedging r.status) h.hedges)
  reset_all sv stuck

-- expected.set(market, (expected.get(market) ?? 0) + signed), on a list of entries
unfoldable pub add_expected : ℕ → ℤ → List (ℕ × ℤ) → List (ℕ × ℤ)
add_expected m d [] = (m, pos 0 +ℤ d) ∷ []
add_expected m d ((k, v) ∷ es) = if k == m then (k, v +ℤ d) ∷ es else (k, v) ∷ add_expected m d es

-- expected.get(market) ?? 0
abbrev pub expected_of : ℕ → List (ℕ × ℤ) → ℤ
expected_of m [] = pos 0
expected_of m ((k, v) ∷ es) = if k == m then v else expected_of m es

-- f.hedge?.status
unfoldable pub is_hedge_terminal : Option HedgeRow → Bool
is_hedge_terminal none = false
is_hedge_terminal (some r) = is_terminal r.status

-- The `for` over the fills.
unfoldable pub expected_from : List HedgeRow → List FillRow → List (ℕ × ℤ) → List (ℕ × ℤ)
expected_from hs [] es = es
expected_from hs (f ∷ fs) es = expected_from hs fs (
    if is_hedge_terminal (find_by_fill_id f.id hs)
    then es
    else add_expected f.market_id (signed_notional_usd f.price f.size f.side) es)

unfoldable pub compute_expected_exposure : RecoveryServices → HedgeCall (List (ℕ × ℤ))
compute_expected_exposure sv = do
  throw_if (not sv.list_fills_up) unexpected
  gets λ h. expected_from h.hedges h.fills []

unfoldable pub set_unhedged_usd : ℕ → ℤ → List Exposure → List Exposure
set_unhedged_usd m v = update_where (λ x. x.market_id == m) (λ x. record x { unhedged_usd = v })

unfoldable pub reconcile_one_exposure : RecoveryServices → Exposure → ℤ → HedgeCall (Unit {0})
unfolding set_unhedged_usd
reconcile_one_exposure sv x recomputed =
    if leb (abs (x.unhedged_usd -ℤ recomputed)) 1
    then pure tt
    else (throw_if (not (sv.set_unhedged_up x.market_id)) unexpected
        >> modify λ h. record h { exposures = set_unhedged_usd x.market_id recomputed h.exposures })

-- The `for` over the exposures.
unfoldable pub reconcile_all :
    RecoveryServices → List (ℕ × ℤ) → List Exposure → HedgeCall (Unit {0})
reconcile_all sv es [] = pure tt
reconcile_all sv es (x ∷ xs) = do
  reconcile_one_exposure sv x (expected_of x.market_id es)
  reconcile_all sv es xs

unfoldable pub rebuild_exposure_drift_check : RecoveryServices → HedgeCall (Unit {0})
rebuild_exposure_drift_check sv = do
  expected ← compute_expected_exposure sv
  throw_if (not sv.list_exposures_up) unexpected
  exposures ← gets (λ h. h.exposures)
  reconcile_all sv expected exposures

-- Every failure is logged only.
unfoldable pub recover_in_flight : RecoveryServices → HedgeCall (Unit {0})
recover_in_flight sv =
    catch (recover_stuck_hedging sv >> rebuild_exposure_drift_check sv) (λ e. pure tt)
