-- ===== src/Resolution/Window.antt =====
-- What the second stage of apps/hedger/resolver/index.ts sends to Solana: `submit_solana_for_resolved`.
use highgarden.Resolution.Adds.{
  Adds, Adds-compose, for_each-Adds, read-Adds, resolve_market-Adds, update_state-Adds,
}
use highgarden.Base.{
  both_hold, one_holds, leb→le, ℕ, ◌-◌, ◌*◌, ◌≤◌, ◌≡◌, refl, sym, subst, ◌⊎◌, inl, inr, Bool, true,
  false, ◌&&◌, Bool-cases, Option, none, some, is_some, List, [], ◌∷◌, All, All-mono, if◌then◌else◌,
}
use highgarden.Call.{Reply, ok, pure, gets, ◌>>=◌}
use highgarden.Call.Frame.{bind-frame, bind-frame_at, ok-injective, err-ok}
use highgarden.Database.{Outcome}
use highgarden.Resolution.{
  ResolverStateRow, Submission, Resolution, ResolutionFailure, call_failed, ResolutionCall,
  ResolutionServices, untouched, for_each, pda_of, resolve_market,
}
use highgarden.Resolution.Table.{
  forwarded, record_solana_resolved, Listed, row_if, select_rows, is_awaiting_solana, is_fast,
  is_before, is_due, due_rows, keep_due, list_awaiting_solana_submission,
}
use highgarden.Resolution.Resolver.{submit_to, submit_one, submit_solana_for_resolved}
use highgarden.Resolution.Stages.{counted, ask_then, ask_alone}
use highgarden.Resolution.Landing.{gets_then}

-- The market is fast-moving, or Polymarket resolved it before the cutoff.
abbrev pub IsOver : ResolutionServices → ℕ → ℕ → ResolverStateRow → Type 0
IsOver sv cutoff id r =
    (is_fast (sv.markets id) ≡ true)
    ⊎ ((t : ℕ) × (r.polymarket_resolved_at ≡ some t) × (t ≤ cutoff))

-- A row that is in the table, unsent, with the dispute window over.
abbrev IsReady : ResolutionServices → (ℕ → Option ResolverStateRow) → ℕ → Listed → Type 0
IsReady sv states cutoff x =
    (states x.0 ≡ some x.1) × (is_awaiting_solana x.1 ≡ true) × IsOver sv cutoff x.0 x.1

-- The submission is the winner of such a row, for the account of its market.
abbrev pub IsAllowed : ResolutionServices → (ℕ → Option ResolverStateRow) → ℕ → Submission → Type 0
IsAllowed sv states cutoff s =
    (id : ℕ) × (r : ResolverStateRow) × (states id ≡ some r)
    × (is_awaiting_solana r ≡ true)
    × (pda_of (sv.markets id) ≡ some s.market_pda)
    × (r.winning_outcome ≡ some s.outcome)
    × IsOver sv cutoff id r

module _ (sv : ResolutionServices) (states : ℕ → Option ResolverStateRow) (cutoff : ℕ) where
  abbrev Allowed : Submission → Type 0
  Allowed = IsAllowed sv states cutoff

  submit_to-Adds :
      (id : ℕ) (r : ResolverStateRow) (pda : Option ℕ) (winner : Option Outcome)
      → IsReady sv states cutoff (id, r)
      → pda_of (sv.markets id) ≡ pda
      → r.winning_outcome ≡ winner
      → (w : Resolution) → Adds Allowed w (submit_to sv id pda winner w).1
  submit_to-Adds id r none winner ready e f w = ([], refl, tt)
  submit_to-Adds id r (some p) none ready e f w = ([], refl, tt)
  submit_to-Adds id r (some p) (some o) (at, awaiting, over) e f w =
      let record_sig : ℕ → ResolutionCall (Unit {0}) =
        λ sig. gets (λ w. sv.now w.calls) >>= λ now. record_solana_resolved sv id sig now in
      bind-frame (Adds Allowed) (Adds-compose Allowed) (resolve_market sv p o) record_sig w
        (resolve_market-Adds Allowed sv p o w (id, r, at, awaiting, e, f, over))
        (λ sig v.
          gets_then (λ (d : Reply ResolutionFailure (Unit {0}) × Resolution). Adds Allowed v d.1)
            (λ w. sv.now w.calls) (λ now. record_solana_resolved sv id sig now) v
            (update_state-Adds Allowed sv id (forwarded sig (sv.now v.calls)) v))

  submit_one-Adds :
      (x : Listed)
      → IsReady sv states cutoff x
      → (w : Resolution) → Adds Allowed w (submit_one sv x w).1
  unfolding submit_one
  submit_one-Adds (id, r) ready w =
      ask_then (λ (d : Reply ResolutionFailure (Unit {0}) × Resolution). Adds Allowed w d.1) sv
        (λ w. sv.markets id) untouched (λ m. submit_to sv id (pda_of m) r.winning_outcome) w
        (submit_to-Adds id r (pda_of (sv.markets id)) r.winning_outcome ready refl refl (counted w))
        ([], refl, tt)

  over : (x : Listed) → is_due sv cutoff x ≡ true → IsOver sv cutoff x.0 x.1
  over (id, r) h =
      go r.polymarket_resolved_at refl
        (one_holds (is_fast (sv.markets id)) (is_before r.polymarket_resolved_at cutoff) h)
    where
      go :
          (at : Option ℕ)
          → r.polymarket_resolved_at ≡ at
          → (is_fast (sv.markets id) ≡ true) ⊎ (is_before at cutoff ≡ true)
          → IsOver sv cutoff id r
      go at e (inl fast) = inl fast
      go none e (inr h) = cc
      go (some t) e (inr h) = inr (t, e, leb→le t cutoff h)

  abbrev IsUnsent : Listed → Type 0
  IsUnsent x = (states x.0 ≡ some x.1) × (is_awaiting_solana x.1 ≡ true)

  due_rows-IsReady :
      (xs : List Listed) → All IsUnsent xs → All (IsReady sv states cutoff) (due_rows sv cutoff xs)
  due_rows-IsReady [] h = tt
  due_rows-IsReady (x ∷ xs) h = elim (Bool-cases (is_due sv cutoff x)) [
    | inl due ↦ rw due ((h.0.0, h.0.1, over x due), due_rows-IsReady xs h.1)
    | inr early ↦ rw early (due_rows-IsReady xs h.1)
  ]

  abbrev awaits : ResolverStateRow → Bool
  awaits r = is_awaiting_solana r && is_some r.winning_outcome

  select_rows-IsUnsent : (ids : List ℕ) → All IsUnsent (select_rows awaits states ids)
  select_rows-IsUnsent [] = tt
  select_rows-IsUnsent (id ∷ ids) = go (states id) refl (select_rows-IsUnsent ids)
    where
      go :
          (r : Option ResolverStateRow)
          → states id ≡ r
          → All IsUnsent (select_rows awaits states ids)
          → All IsUnsent (row_if awaits id r (select_rows awaits states ids))
      go none e rest = rest
      go (some r) e rest = elim (Bool-cases (awaits r)) [
        | inl picked ↦
            rw picked
              ((e, (both_hold (is_awaiting_solana r) (is_some r.winning_outcome) picked).0), rest)
        | inr left_out ↦ rw left_out rest
      ]

  abbrev GivesReady : Reply ResolutionFailure (List Listed) × Resolution → Type 0
  GivesReady r = (xs : List Listed) → r.0 ≡ ok xs → All (IsReady sv states cutoff) xs

  keep_due-GivesReady :
      (xs : List Listed) → All IsUnsent xs → (w : Resolution) → GivesReady (keep_due sv cutoff xs w)
  keep_due-GivesReady [] h w = λ ys e. subst (All (IsReady sv states cutoff)) (ok-injective e) tt
  keep_due-GivesReady (x ∷ xs) h w =
      ask_alone GivesReady sv (λ w. due_rows sv cutoff (x ∷ xs)) untouched w
        (λ ys e.
          subst (All (IsReady sv states cutoff)) (ok-injective e) (due_rows-IsReady (x ∷ xs) h))
        (λ ys e. absurd (err-ok call_failed ys e))

  keep_due-Adds : (xs : List Listed) (w : Resolution) → Adds Allowed w (keep_due sv cutoff xs w).1
  keep_due-Adds [] w = ([], refl, tt)
  keep_due-Adds (x ∷ xs) w = read-Adds Allowed sv (λ w. due_rows sv cutoff (x ∷ xs)) w

  submit_due-Adds :
      (w : Resolution)
      → w.states ≡ states
      → Adds Allowed w
          ((list_awaiting_solana_submission sv cutoff >>= for_each (submit_one sv)) w).1
  unfolding list_awaiting_solana_submission
  submit_due-Adds w same =
      let rows : Resolution → List Listed = λ w. select_rows awaits w.states sv.market_ids in
      bind-frame_at (Adds Allowed) (Adds-compose Allowed)
        (list_awaiting_solana_submission sv cutoff) (for_each (submit_one sv)) w
        (ask_then (λ (d : Reply ResolutionFailure (List Listed) × Resolution). Adds Allowed w d.1)
          sv rows untouched (keep_due sv cutoff) w (keep_due-Adds (rows w) (counted w))
          ([], refl, tt))
        (λ xs e.
          for_each-Adds Allowed (submit_one sv) xs
            (All-mono {P = IsReady sv states cutoff}
              {Q = λ x. (w : Resolution) → Adds Allowed w (submit_one sv x w).1} submit_one-Adds xs
              (ask_then GivesReady sv rows untouched (keep_due sv cutoff) w
                (keep_due-GivesReady (rows w)
                  (subst (λ st. All IsUnsent (select_rows awaits st sv.market_ids)) (sym same)
                    (select_rows-IsUnsent sv.market_ids))
                  (counted w))
                (λ ys e. absurd (err-ok call_failed ys e)) xs e))
            (list_awaiting_solana_submission sv cutoff w).1)

-- Whatever Solana answers and whichever calls fail, all that one run of the second stage lands on Solana is the winner
-- of a row in the table that Polymarket has resolved and that has no signature, for the account of its market, and that
-- market is fast-moving or was resolved on Polymarket at least the dispute window before the run began.
pub submit_solana-Adds :
    (sv : ResolutionServices) (w : Resolution)
    → Adds
        (IsAllowed sv w.states (sv.now w.calls - sv.dispute_window_hours * 3_600_000))
        w
        (submit_solana_for_resolved sv w).1
unfolding submit_solana_for_resolved
submit_solana-Adds sv w = go sv.oracle_configured
  where
    cutoff : Resolution → ℕ
    cutoff w = sv.now w.calls - sv.dispute_window_hours * 3_600_000

    go :
        (b : Bool)
        → Adds
            (IsAllowed sv w.states (cutoff w))
            w
            ((if b
                then (gets cutoff >>= λ c.
                    (list_awaiting_solana_submission sv c >>= for_each (submit_one sv)))
                else pure tt)
              w).1
    go true =
        gets_then
          (λ (d : Reply ResolutionFailure (Unit {0}) × Resolution).
            Adds (IsAllowed sv w.states (cutoff w)) w d.1)
          cutoff (λ c. list_awaiting_solana_submission sv c >>= for_each (submit_one sv)) w
          (submit_due-Adds sv w.states (cutoff w) w refl)
    go false = ([], refl, tt)
