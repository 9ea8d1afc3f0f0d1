-- ===== src/Action/Rules.antt =====
-- Rules for reasoning about actions, one for each way to put them together.
use rabbitpy.Prelude.{◌≡◌, refl, Bool, true, false, if◌then◌else◌}
use rabbitpy.Action.{Outcome, return, raise, blocked, no_fuel, Action, and_then, ◌>>=◌, ◌>>◌}

-- `m` keeps `P`, however it ends.
abbrev pub Keeps {ℓ} : {S A : Type ℓ} → (S → Type ℓ) → Action S A → Type ℓ
Keeps {S} P m = (s : S) → P s → P (m s).1

module _ {ℓ} {S A B : Type ℓ} (P : S → Type ℓ) where
  and_then-Keeps :
      (r : Outcome A) (f : A → Action S B) (s : S)
      → ((a : A) → Keeps P (f a))
      → P s
      → P (and_then r f s).1
  and_then-Keeps (return a) f s k h = k a s h
  and_then-Keeps (raise e) f s k h = h
  and_then-Keeps blocked f s k h = h
  and_then-Keeps no_fuel f s k h = h

  pub Keeps-bind :
      (m : Action S A) (f : A → Action S B)
      → Keeps P m
      → ((a : A) → Keeps P (f a))
      → Keeps P (m >>= f)
  Keeps-bind m f km kf s h = and_then-Keeps (m s).0 f (m s).1 kf (km s h)

-- What `m` returns, if it returns, has the property `Q`.
abbrev pub Ensures {ℓ} : {S A : Type ℓ} → Action S A → (A → Type 0) → Type ℓ
Ensures {S} {A} m Q = (s : S) (a : A) → (m s).0 ≡ return a → Q a

module _ {ℓ} {S A B : Type ℓ} (Q : B → Type 0) where
  and_then-Ensures :
      (r : Outcome A) (f : A → Action S B) (s : S)
      → ((a : A) → r ≡ return a → Ensures (f a) Q)
      → (b : B) → (and_then r f s).0 ≡ return b
      → Q b
  and_then-Ensures (return a) f s k b e = k a refl s b e
  and_then-Ensures (raise x) f s k b e = cc
  and_then-Ensures blocked f s k b e = cc
  and_then-Ensures no_fuel f s k b e = cc

  pub Ensures-bind :
      (P : A → Type 0) (m : Action S A) (f : A → Action S B)
      → Ensures m P
      → ((a : A) → P a → Ensures (f a) Q)
      → Ensures (m >>= f) Q
  Ensures-bind P m f km kf s b e = and_then-Ensures (m s).0 f (m s).1 (λ a r. kf a (km s a r)) b e

-- `m` does not run out of fuel from a state with `P`, and if it returns, `Q` holds.
abbrev pub Ends {ℓ} : {S A : Type ℓ} → (A → S → Type 0) → Outcome A → S → Type 0
Ends Q (return a) s = Q a s
Ends Q (raise e) s = Unit
Ends Q blocked s = Unit
Ends Q no_fuel s = ⊥

abbrev pub Total {ℓ} : {S A : Type ℓ} → (S → Type 0) → Action S A → (A → S → Type 0) → Type ℓ
Total {S} P m Q = (s : S) → P s → Ends Q (m s).0 (m s).1

module _ {ℓ} {S A B : Type ℓ} (P : S → Type 0) (R : A → S → Type 0) (Q : B → S → Type 0) where
  and_then-Ends :
      (r : Outcome A) (f : A → Action S B) (s : S)
      → ((a : A) → Total (R a) (f a) Q)
      → Ends R r s
      → Ends Q (and_then r f s).0 (and_then r f s).1
  and_then-Ends (return a) f s k h = k a s h
  and_then-Ends (raise e) f s k h = tt
  and_then-Ends blocked f s k h = tt
  and_then-Ends no_fuel f s k h = h

  pub Total-bind :
      (m : Action S A) (f : A → Action S B)
      → Total P m R
      → ((a : A) → Total (R a) (f a) Q)
      → Total P (m >>= f) Q
  Total-bind m f km kf s h = and_then-Ends (m s).0 f (m s).1 kf (km s h)

module _ {S : Type 0} (R Q : S → Type 0) where
  and_then-Returns :
      (r : Outcome (Unit {0})) (n : Action S (Unit {0})) (t : S)
      → (r ≡ return tt → R t)
      → ((u : S) → R u → (n u).0 ≡ return tt → Q (n u).1)
      → (and_then r (λ _. n) t).0 ≡ return tt
      → Q (and_then r (λ _. n) t).1
  and_then-Returns (return a) n t first second e = second t (first refl) e
  and_then-Returns (raise x) n t first second e = cc
  and_then-Returns blocked n t first second e = cc
  and_then-Returns no_fuel n t first second e = cc

  -- What holds when two actions have returned, by what holds when the first has.
  pub then-Returns :
      (m n : Action S (Unit {0})) (s : S)
      → ((m s).0 ≡ return tt → R (m s).1)
      → ((u : S) → R u → (n u).0 ≡ return tt → Q (n u).1)
      → ((m >> n) s).0 ≡ return tt
      → Q ((m >> n) s).1
  then-Returns m n s first second e = and_then-Returns (m s).0 n (m s).1 first second e

-- If this result is a return, its state has the property `Q`.
abbrev pub Returned : {S : Type 0} → (S → Type 0) → Outcome (Unit {0}) × S → Type 0
Returned Q r = r.0 ≡ return tt → Q r.1

module _ {S : Type 0} (Q : S → Type 0) where
  pub if-Returned :
      (b : Bool) (p q : Outcome (Unit {0}) × S)
      → (b ≡ true → Returned Q p)
      → (b ≡ false → Returned Q q)
      → Returned Q (if b then p else q)
  if-Returned true p q first second = first refl
  if-Returned false p q first second = second refl
