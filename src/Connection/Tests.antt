-- ===== src/Connection/Tests.antt =====
-- The numbers of channels (rabbitpy/connection.py).
use rabbitpy.Prelude.{◌≡◌, refl, ◌⊎◌, [], ◌∷◌}
use rabbitpy.Exceptions.{too_many_channels}
use rabbitpy.Action.{raise}
use rabbitpy.Connection.{largest, add_channel}
use rabbitpy.Connection.Ids.{IsNew, add_channel_cases}

add_channel_cases_example :
    IsNew 3 (1 ∷ 2 ∷ []) (add_channel 3 (1 ∷ 2 ∷ []))
    ⊎ (largest (1 ∷ 2 ∷ []) ≡ 3)
      × (add_channel 3 (1 ∷ 2 ∷ []) ≡ (raise too_many_channels, 1 ∷ 2 ∷ []))
add_channel_cases_example = add_channel_cases 3 (1 ∷ 2 ∷ [])

run_too_many : add_channel 2 (1 ∷ 2 ∷ []) ≡ (raise too_many_channels, 1 ∷ 2 ∷ [])
unfolding add_channel
run_too_many = refl
