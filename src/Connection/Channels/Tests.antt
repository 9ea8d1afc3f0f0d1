-- ===== src/Connection/Channels/Tests.antt =====
-- A run of `channel` on a connection (rabbitpy/connection.py).
use rabbitpy.Prelude.{◌≡◌, refl, Bool, true, false, String, some, List, [], ◌∷◌, ◌++◌}
use rabbitpy.Action.{return}
use rabbitpy.Stateful
use rabbitpy.Frame
use rabbitpy.Frame.{Frame, FrameClass, Value, opaque}
use rabbitpy.Frame.Sample.{sample}
use rabbitpy.Channel.{Channel}
use rabbitpy.Channel.Sample.{open_channel}
use rabbitpy.Channel.Wait.{validate_frame_type}
use rabbitpy.Channel.Wait.Answer.{arrives}
use rabbitpy.Channel.Api.Lifecycle.{Answered}
use rabbitpy.Channel0.{Channel0}
use rabbitpy.Connection.{get_next_channel_id}
use rabbitpy.Connection.State.{Connection}
use rabbitpy.Connection.Sample.{fresh}
use rabbitpy.Connection.Opening.{create_channel0}
use rabbitpy.Connection.Channels.{channel, channel_ids}
use rabbitpy.Connection.Channels.Added.{channel-opens}

abbrev negotiated : Channel0
negotiated = record (create_channel0 (fresh [])) {
  properties = some (("capabilities", opaque 1) ∷ []);
}

-- An open connection with one channel.
abbrev connected : Connection
connected = record (fresh []) {
  state = Stateful.open_state;
  channel0 = some negotiated;
  channels = (1, open_channel 4 []) ∷ [];
}

Answered-sample : Answered sample
unfolding validate_frame_type Frame.class_of
Answered-sample = record { opens = refl; waits = refl; closes = refl }

next_id : get_next_channel_id negotiated.max_channels (channel_ids connected.channels) ≡ return 2
unfolding get_next_channel_id create_channel0
next_id = refl

-- The one table of the server's properties says that it knows Basic.Nack.
abbrev table_of : Value → List (String × Bool)
table_of value = ("basic.nack", true) ∷ []

channel-opens_example :
    let ticks = arrives (Frame.bare FrameClass.channel_open_ok ∷ []) ∷ [] in
    let r = channel false ticks sample 3 table_of connected in
    (r.0 ≡ return 2)
    × ((d : Channel) × (r.1.channels ≡ connected.channels ++ (2, d) ∷ [])
        × (d.channel_id ≡ 2)
        × (d.state ≡ Stateful.open_state)
        × (d.capabilities ≡ ("basic.nack", true) ∷ []))
    × (r.1.write_queue ≡ connected.write_queue ++ (2, Frame.bare FrameClass.channel_open) ∷ [])
channel-opens_example =
    channel-opens table_of false sample 2 connected negotiated (("capabilities", opaque 1) ∷ []) 2
      [] Answered-sample refl refl refl refl next_id
