-- ===== src/Connection/Ids.antt =====
-- The channels of a connection have different numbers within the limit (rabbitpy/connection.py).
use rabbitpy.Prelude.{
  ℕ, ◌+◌, ◌<◌, ◌≤◌, ◌==◌, ◌≡◌, refl, ◌⊎◌, inl, inr, List, [], ◌∷◌, ◌++◌, arith, All, Bool-cases,
}
use rabbitpy.Exceptions.{too_many_channels}
use rabbitpy.Action.{Outcome, return, raise}
use rabbitpy.Connection.{largest, add_channel}

below_largest : (m : ℕ) (ids : List ℕ) → largest ids ≤ m → All (λ i. i < m + 1) ids
unfolding largest
below_largest m [] h = tt
below_largest m (i ∷ ids) h = (omega arith, below_largest m ids (omega arith))

largest_within : (m : ℕ) (ids : List ℕ) → All (λ i. i ≤ m) ids → largest ids ≤ m
unfolding largest
largest_within m [] p = omega arith
largest_within m (i ∷ ids) p = let h : largest ids ≤ m = largest_within m ids p.1 in omega arith

-- A new number is returned: it exceeds every number in use, and the limit only if one in use does.
pub record IsNew (maximum_channels : ℕ) (ids : List ℕ) (r : Outcome ℕ × List ℕ) : Type 0 where
  pub number : ℕ
  pub returned : r ≡ (return number, ids ++ number ∷ [])
  pub unused : All (λ i. i < number) ids
  pub positive : 0 < number
  pub within :
      0 < maximum_channels → All (λ i. i ≤ maximum_channels) ids → number ≤ maximum_channels

-- A new channel either gets a new number, which is then one of the connection's, or the largest
-- number in use is the limit, TooManyChannelsError is raised and the channels stay as they are.
pub add_channel_cases :
    (maximum_channels : ℕ) (ids : List ℕ)
    → IsNew maximum_channels ids (add_channel maximum_channels ids)
      ⊎ (largest ids ≡ maximum_channels)
        × (add_channel maximum_channels ids ≡ (raise too_many_channels, ids))
unfolding add_channel
add_channel_cases m [] = inl (record {
  number = 1;
  returned = refl;
  unused = tt;
  positive = omega arith;
  within = λ h p. omega arith;
})
add_channel_cases m (i ∷ ids) = elim (Bool-cases (largest (i ∷ ids) == m)) [
  | inl h ↦ inr (ground arith, ground arith)
  | inr h ↦ inl (record {
    number = largest (i ∷ ids) + 1;
    returned = ground arith;
    unused = below_largest (largest (i ∷ ids)) (i ∷ ids) (omega arith);
    positive = omega arith;
    within = λ l p. let b : largest (i ∷ ids) ≤ m = largest_within m (i ∷ ids) p in ground arith;
  })
]
