-- ===== src/Action.antt =====
-- Methods that change an object and may raise. What was written before a raise stays written, so
-- the state is returned beside the exception. Code that blocks reads a schedule of what the other
-- threads do meanwhile: `blocked` says that it still waits when the schedule ends, and `no_fuel`
-- that the bound on the rounds of a loop was met.
pub mod Rules
pub mod Results
use rabbitpy.Prelude.{Bool, true, false}
use rabbitpy.Exceptions.{Exception}

pub data Outcome {ℓ} (A : Type ℓ) : Type ℓ where
  return : A → Outcome A
  raise : Exception → Outcome A
  blocked no_fuel : Outcome A

abbrev pub Action {ℓ} : Type ℓ → Type ℓ → Type ℓ
Action S A = S → Outcome A × S

module _ {ℓ} {S A : Type ℓ} where
  abbrev pub pure : A → Action S A
  pure a s = (return a, s)

  abbrev pub throw : Exception → Action S A
  throw e s = (raise e, s)

  abbrev pub gets : (S → A) → Action S A
  gets f s = (return (f s), s)

module _ {S : Type 0} where
  abbrev pub modify : (S → S) → Action S Unit
  modify f s = (return tt, f s)

  abbrev pub when : Bool → Action S Unit → Action S Unit
  when true m = m
  when false m = pure tt

module _ {ℓ} {S A B : Type ℓ} where
  abbrev pub and_then : Outcome A → (A → Action S B) → Action S B
  and_then (return a) f s = f a s
  and_then (raise e) f s = (raise e, s)
  and_then blocked f s = (blocked, s)
  and_then no_fuel f s = (no_fuel, s)

  infixl 5 ◌>>=◌ ◌>>◌
  abbrev pub ◌>>=◌ : Action S A → (A → Action S B) → Action S B
  ◌>>=◌ m f s = and_then (m s).0 f (m s).1

  abbrev pub ◌>>◌ : Action S A → Action S B → Action S B
  m >> n = m >>= λ _. n

-- An action on a part of the state, which `get` reads and `put` replaces.
module _ {S T A : Type 0} where
  abbrev pub zoom : (get : S → T) (put : T → S → S) → Action T A → Action S A
  zoom get put m s = ((m (get s)).0, put (m (get s)).1 s)
