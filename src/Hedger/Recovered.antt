-- ===== src/Hedger/Recovered.antt =====
-- The tables after boot recovery: apps/hedger/hedger/index.ts.
use highgarden.Base.{
  ℕ, ◌≤◌, ◌≡◌, refl, sym, ap, subst, ◌∙◌, true, false, List, [], ◌∷◌, leb, select, All, All-mono,
  arith, Bool-cases, inl, inr,
}
use highgarden.Base.Int.{ℤ, ◌-ℤ◌, abs}
use highgarden.Database.{FillRow}
use highgarden.Call.{Reply, ok, pure, ◌>>=◌, ◌>>◌}
use highgarden.Hedger.Drift.{
  Listed, select-Listed, reset_to_pending-Listed, Checked, self-Checked, skip-Checked,
  set_unhedged_usd-Checked,
}
use highgarden.Hedger.Owed.{owed, none_plus, expected_from_lem}
use highgarden.Hedger.{
  Tables, HedgeFailure, HedgeRow, Exposure, RecoveryServices, is_hedging, reset_to_pending,
  reset_all, recover_stuck_hedging, expected_of, expected_from, compute_expected_exposure,
  set_unhedged_usd, reconcile_one_exposure, reconcile_all, rebuild_exposure_drift_check,
  recover_in_flight,
}
use highgarden.Call.Frame.{bind-value, catch-value}

-- Every query goes through.
abbrev pub all_up : RecoveryServices
all_up = record {
  list_stuck_up = true;
  reset_up = λ _. true;
  list_fills_up = true;
  list_exposures_up = true;
  set_unhedged_up = λ _. true;
}

abbrev pub Idle : HedgeRow → Type 0
Idle r = is_hedging r.status ≡ false

abbrev pub Recovered : Tables → Type 0
Recovered h =
    All Idle h.hedges
    × All (λ x. abs (x.unhedged_usd -ℤ owed h.hedges x.market_id h.fills) ≤ 1) h.exposures

within_one : (a : ℕ) → leb a 1 ≡ true → a ≤ 1
within_one a h = ground arith

-- A call that returns and keeps what it must; the second step then starts from that.
reset_all-Idle :
    (rs : List HedgeRow) (h : Tables)
    → All (Listed rs) h.hedges
    → ((reset_all all_up rs h).0 ≡ ok tt) × All Idle (reset_all all_up rs h).1.hedges
unfolding reset_all ◌>>=◌
reset_all-Idle [] h l = (refl, l)
reset_all-Idle (r ∷ rs) h l =
    reset_all-Idle rs (record h { hedges = reset_to_pending r.id h.hedges })
      (reset_to_pending-Listed r rs h.hedges l)

reconcile_all-Checked :
    (es : List (ℕ × ℤ)) (xs : List Exposure) (h : Tables)
    → All (Checked (λ m. expected_of m es) xs) h.exposures
    → let r = reconcile_all all_up es xs h in
      (r.0 ≡ ok tt)
      × (r.1.hedges ≡ h.hedges)
      × (r.1.fills ≡ h.fills)
      × All (Checked (λ m. expected_of m es) []) r.1.exposures
unfolding reconcile_all reconcile_one_exposure ◌>>=◌
reconcile_all-Checked es [] h l = (refl, refl, refl, l)
reconcile_all-Checked es (x ∷ xs) h l =
    let goal : ℕ → ℤ = λ m. expected_of m es in
    elim (Bool-cases (leb (abs (x.unhedged_usd -ℤ goal x.market_id)) 1)) [
      | inl t ↦ rw t (
          reconcile_all-Checked es xs h (
            skip-Checked goal x xs h.exposures
              (within_one (abs (x.unhedged_usd -ℤ goal x.market_id)) t) l))
      | inr f ↦ rw f (
          reconcile_all-Checked es xs
            (record h { exposures = set_unhedged_usd x.market_id (goal x.market_id) h.exposures })
            (set_unhedged_usd-Checked goal x xs h.exposures l))
    ]

recover_stuck_hedging_lem :
    (h : Tables)
    → recover_stuck_hedging all_up h
      ≡ reset_all all_up (select (λ r. is_hedging r.status) h.hedges) h
unfolding recover_stuck_hedging ◌>>=◌
recover_stuck_hedging_lem h = refl

rebuild_lem :
    (w : Tables)
    → rebuild_exposure_drift_check all_up w
      ≡ reconcile_all all_up (expected_from w.hedges w.fills []) w.exposures w
unfolding rebuild_exposure_drift_check compute_expected_exposure ◌>>=◌
rebuild_lem w = refl

abbrev Ended : Type 0
Ended = Reply HedgeFailure (Unit {0}) × Tables

-- A recovery that returns is not touched by its `catch`.
recover_in_flight_lem :
    (h : Tables) (end : Ended)
    → (recover_stuck_hedging all_up >> rebuild_exposure_drift_check all_up) h ≡ end
    → end.0 ≡ ok tt
    → recover_in_flight all_up h ≡ end
unfolding recover_in_flight
recover_in_flight_lem h end e done =
    let recover = recover_stuck_hedging all_up >> rebuild_exposure_drift_check all_up in
    let returns = ap (λ (r : Ended). r.0) e ∙ done in
    catch-value recover (λ e. pure tt) h returns ∙ ap (λ r. (r, (recover h).1)) (sym returns) ∙ e

as_owed :
    (hs gs : List HedgeRow) (fs es : List FillRow) (m : ℕ) (v : ℤ)
    → gs ≡ hs
    → es ≡ fs
    → abs (v -ℤ expected_of m (expected_from hs fs [])) ≤ 1
    → abs (v -ℤ owed gs m es) ≤ 1
as_owed hs gs fs es m v a b near =
    subst (λ k. abs (v -ℤ k) ≤ 1)
      (expected_from_lem hs m fs []
        ∙ none_plus (owed hs m fs)
        ∙ ap (λ k. owed k m fs) (sym a)
        ∙ ap (λ k. owed gs m k) (sym b))
      near

-- Boot recovery with every query up returns, no hedge row is left in HEDGING, and every exposure row is within a
-- dollar of what the market's fills without a FILLED, PARTIAL or FAILED hedge come to, bought less sold.
pub recover_in_flight-Recovered :
    (h : Tables)
    → ((recover_in_flight all_up h).0 ≡ ok tt) × Recovered (recover_in_flight all_up h).1
recover_in_flight-Recovered h =
    let stuck = select (λ r. is_hedging r.status) h.hedges in
    let (returns, idle) = reset_all-Idle stuck h (select-Listed h.hedges) in
    let w = (reset_all all_up stuck h).1 in
    let es = expected_from w.hedges w.fills [] in
    let (done, hedges, fills, near) =
      reconcile_all-Checked es w.exposures w (self-Checked (λ m. expected_of m es) w.exposures) in
    let end = reconcile_all all_up es w.exposures w in
    let recover = recover_stuck_hedging all_up >> rebuild_exposure_drift_check all_up in
    let first = recover_stuck_hedging_lem h in
    let rest : recover h ≡ end =
      bind-value (recover_stuck_hedging all_up) (λ _. rebuild_exposure_drift_check all_up) h
        (ap (λ (r : Ended). r.0) first ∙ returns)
      ∙ ap (λ (r : Ended). rebuild_exposure_drift_check all_up r.1) first
      ∙ rebuild_lem w in
    subst (λ (r : Ended). (r.0 ≡ ok tt) × Recovered r.1)
      (sym (recover_in_flight_lem h end rest done))
      (
        done,
        (
          subst (λ hs. All Idle hs) (sym hedges) idle,
          All-mono {P = Checked (λ m. expected_of m es) []}
              {Q = λ x. abs (x.unhedged_usd -ℤ owed end.1.hedges x.market_id end.1.fills) ≤ 1}
              (λ x c.
                as_owed w.hedges end.1.hedges w.fills end.1.fills x.market_id x.unhedged_usd hedges
                  fills c)
              end.1.exposures near,
        ),
      )
