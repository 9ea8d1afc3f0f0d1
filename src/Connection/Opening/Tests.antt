-- ===== src/Connection/Opening/Tests.antt =====
-- A run of `_connect` (rabbitpy/connection.py).
use rabbitpy.Prelude.{◌≡◌, refl, none, [], ◌∷◌}
use rabbitpy.Action.{return}
use rabbitpy.Frame.Sample.{sample}
use rabbitpy.Events
use rabbitpy.Stateful
use rabbitpy.Connection.State.{Connection, set_state, raise_next, happen, on_channel0}
use rabbitpy.Channel
use rabbitpy.Channel0
use rabbitpy.Channel0.{Channel0}
use rabbitpy.Channel0.Handshake.{Negotiated}
use rabbitpy.Connection.Sample.{fresh, opens, serves as sample_serves, close_nothing}
use rabbitpy.Connection.Opening.Served.{only, serves, socket_open, made, connect-Negotiated}
use rabbitpy.Connection.Opening.{connect, create_channel0}
use rabbitpy.Connection.Opening.Opened.{Opened, connect-Opened}

run_connect : (connect sample 5 (fresh (opens ∷ sample_serves ∷ []))).0 ≡ return tt
unfolding connect Channel0.on_frame Channel0.start Events.create_event_objects Events.set
    Events.is_set set_state Stateful.set_state raise_next happen on_channel0 Channel.set_state
    Channel.write_frame
run_connect = refl

connect-Opened_example : Opened (connect sample 5 (fresh (opens ∷ sample_serves ∷ []))).1
connect-Opened_example = connect-Opened sample 5 (fresh (opens ∷ sample_serves ∷ [])) run_connect

abbrev scheduled : Connection
scheduled = fresh (
    only (Events.socket_opened ∷ []) (λ c. c)
    ∷ serves (0, 9) none close_nothing [] 2047 131072 60
    ∷ [])

connect-Negotiated_example :
    let u = socket_open (serves (0, 9) none close_nothing [] 2047 131072 60 ∷ []) scheduled in
    (t : Channel0) × (connect sample 5 scheduled ≡ (return tt, made t [] u))
    × Negotiated none [] 2047 131072 60 (create_channel0 u) t
connect-Negotiated_example =
    connect-Negotiated sample 5 (0, 9) none close_nothing [] 2047 131072 60 scheduled []
      (record { exceptions = refl; events = refl; channel0 = refl }) refl
