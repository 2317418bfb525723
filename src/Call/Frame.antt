-- ===== src/Call/Frame.antt =====
-- How to reason along a sequence of calls: frames, what holds on return, and exceptions.
use highgarden.Base.{ap, subst, sym, ◌≡◌, refl, ◌∙◌, ◌⊎◌, inl, inr}
use highgarden.Call.{Reply, ok, err, Call, pure, throw, ◌>>=◌, ◌>>◌, catch}

pub Reply-cases : {E A : Type 0} (r : Reply E A) → ((a : A) × (r ≡ ok a)) ⊎ ((e : E) × (r ≡ err e))
Reply-cases (ok a) = inl (a, refl)
Reply-cases (err e) = inr (e, refl)

-- A relation between the states before and after that goes along a sequence of calls.
module _ {S E : Type 0} (R : S → S → Type 0) (compose : (u v w : S) → R u v → R v w → R u w) where
  pub bind-frame :
      {A B : Type 0} (m : Call S E A) (f : A → Call S E B) (w : S)
      → R w (m w).1
      → ((a : A) (v : S) → R v (f a v).1)
      → R w ((m >>= f) w).1
  unfolding ◌>>=◌
  bind-frame m f w first then' = elim (Reply-cases (m w).0) [
    | inl (a, e) ↦ rw (e, ◌>>=◌) (compose w (m w).1 (f a (m w).1).1 first (then' a (m w).1))
    | inr (e, same) ↦ rw (same, ◌>>=◌) first
  ]

  pub catch-frame :
      {A : Type 0} (m : Call S E A) (h : E → Call S E A) (w : S)
      → R w (m w).1
      → ((e : E) (v : S) → R v (h e v).1)
      → R w (catch m h w).1
  unfolding catch
  catch-frame m h w first then' = elim (Reply-cases (m w).0) [
    | inl (a, e) ↦ rw (e, catch) first
    | inr (e, same) ↦ rw (same, catch) (compose w (m w).1 (h e (m w).1).1 first (then' e (m w).1))
  ]

pub err-ok : {E B : Type 0} (e : E) (b : B) → ◌≡◌ {A = Reply E B} (err e) (ok b) → ⊥
err-ok e b h = cc

-- A sequence that returns has returned from its first call, and from the rest on what that returned.
pub bind-ok :
    {S E A B : Type 0} (m : Call S E A) (f : A → Call S E B) (w : S) (b : B)
    → ((m >>= f) w).0 ≡ ok b
    → (a : A) × ((m w).0 ≡ ok a) × ((f a (m w).1).0 ≡ ok b)
unfolding ◌>>=◌
bind-ok m f w b h = elim (Reply-cases (m w).0) [
  | inl (a, e) ↦ (a, e, rw (e, ◌>>=◌) at h)
  | inr (e, same) ↦ absurd (err-ok e b (rw (same, ◌>>=◌) at h))
]

module _ {S E A B : Type 0} (m : Call S E A) (f : A → Call S E B) (w : S) where
  pub bind-value : {a : A} → (m w).0 ≡ ok a → (m >>= f) w ≡ f a (m w).1
  unfolding ◌>>=◌
  bind-value e = rw (e, ◌>>=◌)

  pub bind-throw : {e : E} → (m w).0 ≡ err e → (m >>= f) w ≡ (err e, (m w).1)
  unfolding ◌>>=◌
  bind-throw e = rw (e, ◌>>=◌)

pub ok-injective : {E A : Type 0} {a b : A} → ◌≡◌ {A = Reply E A} (ok a) (ok b) → a ≡ b
ok-injective h = cc

-- As `bind-ok`, handing its parts on.
pub on-ok :
    {S E A B : Type 0} (Q : Type 0) (m : Call S E A) (f : A → Call S E B) (w : S) (b : B)
    → ((m >>= f) w).0 ≡ ok b
    → ((a : A) → (m w).0 ≡ ok a → (f a (m w).1).0 ≡ ok b → Q)
    → Q
on-ok Q m f w b h k = let (a, e, rest) = bind-ok m f w b h in k a e rest

-- As `bind-frame`, where the rest is only known to keep the relation after what the first call gave.
pub bind-frame_at :
    {S E A B : Type 0} (R : S → S → Type 0) (compose : (u v w : S) → R u v → R v w → R u w)
    (m : Call S E A) (f : A → Call S E B) (w : S)
    → R w (m w).1
    → ((a : A) → (m w).0 ≡ ok a → R (m w).1 (f a (m w).1).1)
    → R w ((m >>= f) w).1
bind-frame_at R compose m f w first then' = elim (Reply-cases (m w).0) [
  | inl (a, e) ↦
      subst (λ r. R w r.1) (sym (bind-value m f w e))
        (compose w (m w).1 (f a (m w).1).1 first (then' a e))
  | inr (e, same) ↦ subst (λ r. R w r.1) (sym (bind-throw m f w same)) first
]

-- What holds of the value and the state whenever a call returns.
abbrev pub Returns : {S E A : Type 0} → (A → S → Type 0) → Reply E A × S → Type 0
Returns Q r = (a : _) → r.0 ≡ ok a → Q a r.1

pub bind-Returns :
    {S E A B : Type 0} (Q : B → S → Type 0) (m : Call S E A) (f : A → Call S E B) (w : S)
    → ((a : A) → (m w).0 ≡ ok a → Returns Q (f a (m w).1))
    → Returns Q ((m >>= f) w)
bind-Returns Q m f w rest b h =
    let (a, e, h') = bind-ok m f w b h in
    subst (λ r. Q b r.1) (sym (bind-value m f w e)) (rest a e b h')

module _ {S E A : Type 0} (m : Call S E A) (h : E → Call S E A) (w : S) where
  pub catch-value : {a : A} → (m w).0 ≡ ok a → catch m h w ≡ (ok a, (m w).1)
  unfolding catch
  catch-value e = rw (e, catch)

  pub catch-throw : {e : E} → (m w).0 ≡ err e → catch m h w ≡ h e (m w).1
  unfolding catch
  catch-throw e = rw (e, catch)

-- A sequence that ends in a throw returns nothing.
never_returns :
    {S E A B : Type 0} (m : Call S E A) (e : E) (w : S) (b : B) → ((m >> throw e) w).0 ≡ ok b → ⊥
never_returns m e w b h = let (a, _, h') = bind-ok m (λ _. throw e) w b h in err-ok e b h'

-- A `catch` that writes something and throws again returns only what its call returned.
pub catch_rethrow :
    {S E A : Type 0} (Q : A → S → Type 0) (m : Call S E A) (h : E → Call S E (Unit {0})) (g : E → E)
    (w : S)
    → Returns Q (m w)
    → Returns Q (catch m (λ e. h e >> throw (g e)) w)
catch_rethrow {S = S} {E = E} {A = A} Q m h g w first a e =
    let handler : E → Call S E A = λ f. h f >> throw (g f) in
    elim (Reply-cases (m w).0) [
      | inl (b, was) ↦
          let same = catch-value m handler w was in
          subst (λ r. Q a r.1) (sym same)
            (first a (was ∙ ap (λ (r : Reply E A × S). r.0) (sym same) ∙ e))
      | inr (f, was) ↦ absurd (
          never_returns (h f) (g f) (m w).1 a
            (ap (λ (r : Reply E A × S). r.0) (sym (catch-throw m handler w was)) ∙ e))
    ]

pub bind-pure_state :
    {S E A B : Type 0} (m : Call S E A) (f : A → B) (w : S)
    → ((m >>= λ a. pure (f a)) w).1 ≡ (m w).1
bind-pure_state {S = S} {E = E} {B = B} m f w = elim (Reply-cases (m w).0) [
  | inl (a, e) ↦ ap (λ (r : Reply E B × S). r.1) (bind-value m (λ a. pure (f a)) w e)
  | inr (e, was) ↦ ap (λ (r : Reply E B × S). r.1) (bind-throw m (λ a. pure (f a)) w was)
]

pub pure-Returns :
    {S E A : Type 0} (Q : A → S → Type 0) (a : A) (w : S) → Q a w → Returns {E = E} Q (pure a w)
pure-Returns Q a w q b h = subst (λ x. Q x w) (ok-injective h) q
