-- ===== src/Liquidator/Orders.antt =====
-- How one call of apps/hedger/inventory/liquidator.ts goes on after a database call or an order.
use highgarden.Base.{
  ℕ, suc, ◌≡◌, refl, sym, ap, subst, ◌∙◌, inl, inr, Bool-cases, Bool, true, false, Option, none,
  some, ◌∷◌, if◌then◌else◌,
}
use highgarden.Call.{Reply, ok, err, or_throw, pure, ◌>>=◌}
use highgarden.Call.Frame.{Reply-cases, bind-value, bind-throw, catch-value, catch-throw}
use highgarden.Database.{InventoryRow}
use highgarden.Trade.{OrderResult}
use highgarden.Liquidator.{
  LiquidationOrder, Inventory, Query, note_query, LiquidationFailure, no_database, no_order,
  LiquidatorServices, LiquidatorCall, query, send_liquidation, Note, liquidation_failed,
  append_note, liquidate_one, liquidate_one_safely,
}

-- The state before the query itself.
abbrev pub disturbed : LiquidatorServices → Inventory → Inventory
disturbed sv w = record w { table = sv.others w.calls w.table; calls = suc w.calls }

abbrev then_do :
    {A B : Type 0}
    → (A → LiquidatorCall B)
    → Reply LiquidationFailure A × Inventory
    → Reply LiquidationFailure B × Inventory
then_do f (ok a, w) = f a w
then_do f (err e, w) = (err e, w)

bind_lem :
    {A B : Type 0} (m : LiquidatorCall A) (f : A → LiquidatorCall B) (w : Inventory)
    → (m >>= f) w ≡ then_do f (m w)
bind_lem m f w = elim (Reply-cases (m w).0) [
  | inl (a, e) ↦ bind-value m f w e ∙ subst (λ r. f a (m w).1 ≡ then_do f (r, (m w).1)) (sym e) refl
  | inr (e, threw) ↦
      bind-throw m f w threw
      ∙ subst (λ r. (err e, (m w).1) ≡ then_do f (r, (m w).1)) (sym threw) refl
]

pub bind-query :
    {A B : Type 0} (sv : LiquidatorServices) (q : Query) (read : Inventory → A)
    (write : Inventory → Inventory) (f : A → LiquidatorCall B) (w : Inventory)
    → (query sv q read write >>= f) w ≡ (
        if sv.query_up q w.calls
        then f (read (disturbed sv w)) (write (disturbed sv w))
        else (err no_database, disturbed sv w))
unfolding query
bind-query {A} {B} sv q read write f w =
    bind_lem (query sv q read write) f w ∙ go (sv.query_up q w.calls)
  where
    go :
        (b : Bool)
        → then_do f (
            if b
            then (ok (read (disturbed sv w)), write (disturbed sv w))
            else (err no_database, disturbed sv w))
          ≡ (if b
              then f (read (disturbed sv w)) (write (disturbed sv w))
              else (err no_database, disturbed sv w))
    go true = refl
    go false = refl

abbrev pub sent : Inventory → LiquidationOrder → Inventory
sent w o = record w { orders = o ∷ w.orders }

abbrev pub on_reply :
    {B : Type 0}
    → (OrderResult → LiquidatorCall B)
    → Inventory
    → Option OrderResult
    → Reply LiquidationFailure B × Inventory
on_reply f w none = (err no_order, w)
on_reply f w (some r) = f r w

pub bind-send_liquidation :
    {B : Type 0} (sv : LiquidatorServices) (o : LiquidationOrder)
    (f : OrderResult → LiquidatorCall B) (w : Inventory)
    → (send_liquidation sv o >>= f) w ≡ on_reply f (sent w o) (sv.place_market_order w.orders o)
unfolding send_liquidation
bind-send_liquidation sv o f w =
    bind_lem (send_liquidation sv o) f w ∙ go (sv.place_market_order w.orders o)
  where
    go :
        (r : Option OrderResult)
        → then_do f (or_throw r no_order (sent w o)) ≡ on_reply f (sent w o) r
    go none = refl
    go (some r) = refl

abbrev pub or_err :
    {A B : Type 0}
    → LiquidationFailure
    → (A → LiquidatorCall B)
    → Inventory
    → Option A
    → Reply LiquidationFailure B × Inventory
or_err e f w none = (err e, w)
or_err e f w (some a) = f a w

pub bind-or_throw :
    {A B : Type 0} (o : Option A) (e : LiquidationFailure) (f : A → LiquidatorCall B)
    (w : Inventory)
    → (or_throw o e >>= f) w ≡ or_err e f w o
bind-or_throw none e f w = bind_lem (or_throw none e) f w
bind-or_throw (some a) e f w = bind_lem (or_throw (some a) e) f w

abbrev Noted :
    LiquidatorServices → Inventory → Reply LiquidationFailure (Unit {0}) × Inventory → Type 0
Noted sv w r = (r.0 ≡ ok tt) × (r.1.orders ≡ w.orders) × (r.1.table ≡ sv.others w.calls w.table)

-- A note is written or not; nothing else comes of it.
pub append_note_lem :
    (sv : LiquidatorServices) (id : ℕ) (note : Note) (w : Inventory)
    → Noted sv w (append_note sv id note w)
unfolding append_note query
append_note_lem sv id note w =
    let write : Inventory → Inventory = λ v. record v { notes = (id, note) ∷ v.notes } in
    let ask : LiquidatorCall (Unit {0}) = query sv note_query (λ v. tt) write in
    let handler : LiquidationFailure → LiquidatorCall (Unit {0}) = λ e. pure tt in
    let w' = disturbed sv w in
    let branch : Bool → Reply LiquidationFailure (Unit {0}) × Inventory =
      λ b. if b then (ok tt, write w') else (err no_database, w') in
    elim (Bool-cases (sv.query_up note_query w.calls)) [
      | inl up ↦
          let e : ask w ≡ (ok tt, write w') = ap branch up in
          let whole =
            catch-value ask handler w
              (ap (λ (r : Reply LiquidationFailure (Unit {0}) × Inventory). r.0) e) in
          subst (Noted sv w)
            (sym (
              whole ∙ ap (λ (r : Reply LiquidationFailure (Unit {0}) × Inventory). (ok tt, r.1)) e))
            (refl, refl, refl)
      | inr down ↦
          let e : ask w ≡ (err no_database, w') = ap branch down in
          let whole =
            catch-throw ask handler w
              (ap (λ (r : Reply LiquidationFailure (Unit {0}) × Inventory). r.0) e) in
          subst (Noted sv w)
            (sym (
              whole ∙ ap (λ (r : Reply LiquidationFailure (Unit {0}) × Inventory). (ok tt, r.1)) e))
            (refl, refl, refl)
    ]

pub note_then :
    {B : Type 0} (sv : LiquidatorServices) (id : ℕ) (note : Note) (f : Unit {0} → LiquidatorCall B)
    (w : Inventory)
    → (append_note sv id note >>= f) w ≡ f tt (append_note sv id note w).1
note_then sv id note f w = bind-value (append_note sv id note) f w (append_note_lem sv id note w).0

-- A row's attempt never throws.
abbrev pub settled :
    LiquidatorServices
    → ℕ
    → Reply LiquidationFailure ℕ × Inventory
    → Reply LiquidationFailure ℕ × Inventory
settled sv id (ok n, v) = (ok n, v)
settled sv id (err e, v) = (ok 0, (append_note sv id liquidation_failed v).1)

pub liquidate_one_safely_lem :
    (sv : LiquidatorServices) (row : InventoryRow) (w : Inventory)
    → liquidate_one_safely sv row w ≡ settled sv row.id (liquidate_one sv row w)
unfolding liquidate_one_safely
liquidate_one_safely_lem sv row w =
    let m = liquidate_one sv row in
    let handler : LiquidationFailure → LiquidatorCall ℕ =
      λ e. append_note sv row.id liquidation_failed >>= λ _. pure 0 in
    elim (Reply-cases (m w).0) [
      | inl (n, e) ↦
          catch-value m handler w e
          ∙ subst (λ r. (ok n, (m w).1) ≡ settled sv row.id (r, (m w).1)) (sym e) refl
      | inr (f, e) ↦
          catch-throw m handler w e
          ∙ note_then sv row.id liquidation_failed (λ _. pure 0) (m w).1
          ∙ subst
              (λ r.
                (ok 0, (append_note sv row.id liquidation_failed (m w).1).1)
                ≡ settled sv row.id (r, (m w).1))
              (sym e) refl
    ]
