-- ===== src/Call.antt =====
-- A call of the services: it reads and writes a shared state, and it returns a value or throws. What
-- it wrote before a throw stays written. `S` is the state, `E` what can be thrown.
pub mod Frame
use highgarden.Base.{Bool, Option, none, some, if◌then◌else◌}

pub data Reply (E A : Type 0) : Type 0 where
  ok : A → Reply E A
  err : E → Reply E A

abbrev pub Call : Type 0 → Type 0 → Type 0 → Type 0
Call S E A = S → Reply E A × S

module _ {S E A : Type 0} where
  abbrev pub pure : A → Call S E A
  pure a w = (ok a, w)

  abbrev pub throw : E → Call S E A
  throw e w = (err e, w)

  abbrev pub gets : (S → A) → Call S E A
  gets f w = (ok (f w), w)

  abbrev pub or_throw : Option A → E → Call S E A
  or_throw none e = throw e
  or_throw (some a) e = pure a

-- Shut, so that a proof can take a sequence apart by rules, without computing it.
infixl 5 ◌>>=◌ ◌>>◌
unfoldable pub ◌>>=◌ : {S E A B : Type 0} → Call S E A → (A → Call S E B) → Call S E B
◌>>=◌ m f w = let (r, w') = m w in elim r [ ok a ↦ f a w' | err e ↦ throw e w' ]

abbrev pub ◌>>◌ : {S E A B : Type 0} → Call S E A → Call S E B → Call S E B
m >> k = m >>= λ _. k

abbrev pub throw_if : {S E : Type 0} → Bool → E → Call S E (Unit {0})
throw_if c e w = (if c then err e else ok tt, w)

abbrev pub modify : {S E : Type 0} → (S → S) → Call S E (Unit {0})
modify f w = (ok tt, f w)

-- `try { m } catch (e) { h(e) }`
unfoldable pub catch : {S E A : Type 0} → Call S E A → (E → Call S E A) → Call S E A
catch m h w = let (r, w') = m w in elim r [ ok a ↦ pure a w' | err e ↦ h e w' ]
