-- ===== src/Trade/Frame.antt =====
-- What a call of the trade services may write: the relation that the checks are held to.
use highgarden.Base.{◌≡◌, refl, ◌∙◌}
use highgarden.Trade.State.{World}

pub record Untouched (w w' : World) : Type 0 where
  pub markets : w'.markets ≡ w.markets
  pub users : w'.users ≡ w.users
  pub inventory : w'.inventory ≡ w.inventory
  pub quotes : w'.quotes ≡ w.quotes
  pub fills : w'.fills ≡ w.fills
  pub hedges : w'.hedges ≡ w.hedges
  pub orders : w'.orders ≡ w.orders
  pub submissions : w'.submissions ≡ w.submissions

pub Untouched-refl : (w : World) → Untouched w w
Untouched-refl w = record {
  markets = refl;
  users = refl;
  inventory = refl;
  quotes = refl;
  fills = refl;
  hedges = refl;
  orders = refl;
  submissions = refl;
}

pub Untouched-trans : {u v w : World} → Untouched u v → Untouched v w → Untouched u w
Untouched-trans p q = record {
  markets = q.markets ∙ p.markets;
  users = q.users ∙ p.users;
  inventory = q.inventory ∙ p.inventory;
  quotes = q.quotes ∙ p.quotes;
  fills = q.fills ∙ p.fills;
  hedges = q.hedges ∙ p.hedges;
  orders = q.orders ∙ p.orders;
  submissions = q.submissions ∙ p.submissions;
}

pub Untouched-compose : (u v w : World) → Untouched u v → Untouched v w → Untouched u w
Untouched-compose u v w p q = Untouched-trans p q
