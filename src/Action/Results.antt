-- ===== src/Action/Results.antt =====
-- Functions that may raise and change nothing: a bind on outcomes, and what holds of an outcome
-- that is neither `blocked` nor `no_fuel`.
use mathlib.Core.Path.{subst}
use rabbitpy.Prelude.{◌≡◌, ap}
use rabbitpy.Exceptions.{Exception}
use rabbitpy.Action.{Outcome, return, raise, blocked, no_fuel}

module _ {ℓ} {A B : Type ℓ} where
  infixl 5 ◌>>=◌
  abbrev pub ◌>>=◌ : Outcome A → (A → Outcome B) → Outcome B
  return a >>= f = f a
  raise e >>= f = raise e
  blocked >>= f = blocked
  no_fuel >>= f = no_fuel

-- What is returned has one property, what is raised another.
pub data Gives {A : Type 0} (P : A → Type 0) (Q : Exception → Type 0) : Outcome A → Type 0 where
  returned : {a : A} → P a → Gives P Q (return a)
  raised : {e : Exception} → Q e → Gives P Q (raise e)

-- No more than that something was returned.
abbrev pub Any : {A : Type 0} → A → Type 0
Any a = Unit

module _ {A B : Type 0} {P : B → Type 0} {Q : Exception → Type 0} where
  pub Gives-bind :
      {R : A → Type 0} {m : Outcome A} (f : A → Outcome B)
      → Gives R Q m
      → ((a : A) → R a → Gives P Q (f a))
      → Gives P Q (m >>= f)
  Gives-bind f (returned r) h = h _ r
  Gives-bind f (raised q) h = raised q

module _ {A : Type 0} where
  returned_or : A → Outcome A → A
  returned_or a (return b) = b
  returned_or a o = a

  raised_or : Exception → Outcome A → Exception
  raised_or e (raise x) = x
  raised_or e o = e

module _ {A : Type 0} {P : A → Type 0} {Q : Exception → Type 0} where
  pub Gives-return : {o : Outcome A} {a : A} → Gives P Q o → o ≡ return a → P a
  unfolding returned_or
  Gives-return (returned {a} p) q = subst P (ap (returned_or a) q) p
  Gives-return (raised p) q = cc

  pub Gives-raise : {o : Outcome A} {e : Exception} → Gives P Q o → o ≡ raise e → Q e
  unfolding raised_or
  Gives-raise (returned p) q = cc
  Gives-raise (raised {e} p) q = subst Q (ap (raised_or e) q) p

module _ {A : Type 0} {P R : A → Type 0} {Q : Exception → Type 0} where
  pub Gives-weaken : {o : Outcome A} → Gives P Q o → ((a : A) → P a → R a) → Gives R Q o
  Gives-weaken (returned p) h = returned (h _ p)
  Gives-weaken (raised q) h = raised q
