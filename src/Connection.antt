-- ===== src/Connection.antt =====
-- rabbitpy/connection.py: the numbers that a connection gives to its channels. The dictionary of
-- the channels is the list of its keys, to which each new channel adds its own.
pub mod Ids
pub mod Url
pub mod State
pub mod Closing
pub mod Opening
pub mod Channels
pub mod Sample
mod Tests
use rabbitpy.Prelude.{ℕ, ◌+◌, ◌==◌, if◌then◌else◌, Bool, true, false, List, [], ◌∷◌, ◌++◌, max}
use rabbitpy.Exceptions.{too_many_channels}
use rabbitpy.Action.{Action, Outcome, return, raise, blocked, no_fuel, and_then, pure, ◌>>=◌, ◌>>◌}

-- The largest of these numbers; the empty list, of which the code does not ask it, gives 0.
pub largest : List ℕ → ℕ
largest [] = 0
largest (i ∷ ids) = max i (largest ids)

unfoldable pub get_next_channel_id : (maximum_channels : ℕ) → List ℕ → Outcome ℕ
unfolding largest
get_next_channel_id maximum_channels [] = return 1
get_next_channel_id maximum_channels (i ∷ ids) =
    if largest (i ∷ ids) == maximum_channels
    then raise too_many_channels
    else return (largest (i ∷ ids) + 1)

-- What `channel` does to the dictionary: the number of the new channel is a key.
unfoldable pub add_channel : (maximum_channels : ℕ) → Action (List ℕ) ℕ
unfolding get_next_channel_id
add_channel maximum_channels ids =
    and_then (get_next_channel_id maximum_channels ids) (λ i ids. (return i, ids ++ i ∷ [])) ids
