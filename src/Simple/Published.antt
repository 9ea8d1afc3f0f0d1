-- ===== src/Simple/Published.antt =====
-- `publish` of rabbitpy/simple.py with a server that answers: a run of the whole library, from the
-- making of the connection to its end.
use rabbitpy.Prelude.{
  ℕ, suc, ◌<◌, ◌≡◌, refl, ap, Bool, true, false, String, Option, none, some, List, [], ◌∷◌, ◌++◌,
  length,
}
use rabbitpy.Action.{Action, Outcome, return, and_then}
use rabbitpy.Stateful
use rabbitpy.Frame.{FrameClass, Pamqp, Value, bytes}
use rabbitpy.Channel.{Channel, Tick}
use rabbitpy.Channel.Writes.{CanWrite, wrote}
use rabbitpy.Channel.Api.Lifecycle.{Answered}
use rabbitpy.Channel0.{Channel0}
use rabbitpy.Channel0.Agreed.{negotiate-agreed}
use rabbitpy.Channel0.Handshake.{Negotiated}
use rabbitpy.Connection.State.{Connection, Happening, lend}
use rabbitpy.Connection.Opening.{create_channel0}
use rabbitpy.Connection.Opening.Served.{New, only, socket_open, made, serves, connect-Negotiated}
use rabbitpy.Events
use rabbitpy.Connection.Closing.Answered.{answers, idle}
use rabbitpy.Connection.Channels.{capabilities_in, new_channel}
use rabbitpy.Connection.Channels.Added.{own_channel}
use rabbitpy.Message.Properties.{
  Convert, Properties, maybe_utf8_encode, coerce_properties, prune_invalid_properties,
}
use rabbitpy.Channel0.{negotiate}
use rabbitpy.Message.Create.{BodyValue, create}
use rabbitpy.Message.Body.{concat}
use rabbitpy.Message.Publish.{Message, Attached, or_empty}
use rabbitpy.Message.Publish.Frames.{publish-writes, message_frames}
use rabbitpy.Simple.Functions.{send, publish}
use rabbitpy.Simple.Session.Writes.{after_open, channel_ticks, conversation, session-writes}
use rabbitpy.Simple.Session.{IsReady}

-- A connection that has been negotiated from its making is ready for a channel.
made-IsReady :
    (system : Option String) (properties : List (String × Value))
    (channel_max frame_max heartbeat : ℕ) (s : Connection) (schedule later : List Happening)
    (t : Channel0)
    → s.channels ≡ []
    → Negotiated system properties channel_max frame_max heartbeat
        (create_channel0 (socket_open schedule s))
        t
    → IsReady (made t later (socket_open schedule s)) t properties
unfolding create_channel0
made-IsReady system properties channel_max frame_max heartbeat s schedule later t n g = record {
  known = g.server;
  exceptions = g.exceptions;
  state = refl;
  events = g.opened;
  channel0 = refl;
  open_state = g.open_state;
  channels = n;
  io_alive = refl;
}

-- The message as it is made from the arguments.
pub record Encodes (convert : Convert) (message : Message) (payload : List ℕ)
    (properties : Properties) : Type 0 where
  pub payload_bytes : maybe_utf8_encode convert message.body ≡ bytes payload
  pub coerced :
      coerce_properties convert (prune_invalid_properties convert message.properties)
      ≡ (return tt, properties)

module _ (convert : Convert) (pamqp : Pamqp) (rounds : ℕ) (table_of : Value → List (String × Bool))
    (ticks : List Tick) (created : Outcome Connection) where
  -- The action of `publish` on its channel, without confirms.
  send-writes :
      (message : Message) (payload : List ℕ) (properties : Properties) (exchange key : String)
      (d : Channel)
      → Encodes convert message payload properties
      → 0 < d.maximum_frame_size
      → CanWrite d
      → d.publisher_confirms ≡ false
      → (pieces : List (List ℕ)) × (send pamqp rounds table_of ticks created convert false
            (return message)
            exchange
            (some key)
            d
          ≡ (
            return none,
            wrote
                (message_frames exchange (some key) false false (length payload) properties pieces)
                d,
          ))
        × (concat pieces ≡ payload)
  unfolding send
  send-writes message payload properties exchange key d e f w c =
      let (pieces, p, joined, _) =
        publish-writes convert pamqp rounds exchange (some key) false false
          (record { message = message; channel = d }) payload properties e.payload_bytes e.coerced f
          w c in
      (
        pieces,
        ap
            (λ (r : Outcome (Option Bool) × Attached).
              and_then r.0 (λ _ c. (return none, c)) r.1.channel)
            p,
        joined,
      )

-- What the server and the other threads do while a message is published: they make the connection, and
-- answer Channel.Open, Channel.Close and Connection.Close.
abbrev pub session :
    (version : ℕ × ℕ) (system : Option String) (close_connection : Action Channel0 Unit)
    → List (String × Value)
    → (channel_max frame_max heartbeat : ℕ) → List Happening
session version system close_connection properties channel_max frame_max heartbeat =
    only (Events.socket_opened ∷ []) (λ c. c)
    ∷ serves version system close_connection properties channel_max frame_max heartbeat
    ∷ answers version system close_connection
    ∷ idle
    ∷ record idle { io_alive = false }
    ∷ []

-- `simple.publish` without confirms, from the making of the connection to its end, on a new connection
-- without channels, with a server that serves the negotiation and answers Channel.Open,
-- Channel.Close and Connection.Close, and nothing else happening, and with a message that can be made
-- and encoded, where the negotiated frame size is not 0: it returns None; the connection is closed
-- and the IO thread has ended; and behind the frames of the negotiation it has queued Channel.Open,
-- the frames of the message, whose bodies joined are its payload, Channel.Close and
-- Connection.Close, and nothing else.
pub publish-conversation :
    (convert : Convert) (pamqp : Pamqp) (rounds : ℕ) (table_of : Value → List (String × Bool))
    (version : ℕ × ℕ) (system : Option String) (close_connection : Action Channel0 Unit)
    (properties : List (String × Value)) (channel_max frame_max heartbeat : ℕ) (s : Connection)
    (dumps : ℕ → String) (uuid : String) (now : ℕ) (exchange key : Option String) (b : BodyValue)
    (given sent : Properties) (message : Message) (payload : List ℕ)
    → Answered pamqp
    → pamqp.synchronous FrameClass.connection_close ≡ true
    → New s
    → s.channels ≡ []
    → s.schedule
      ≡ session version system close_connection properties channel_max frame_max heartbeat
    → 0 < negotiate s.frame_max frame_max
    → create convert dumps uuid now b (some given) false false ≡ return message
    → Encodes convert message payload sent
    → let r =
        publish pamqp
          (suc rounds)
          table_of
          channel_ticks
          (return s)
          convert
          dumps
          uuid
          now
          exchange
          key
          (some b)
          (some given)
          false in
      (r.0 ≡ return none)
      × ((u : Connection) × (t : Channel0) × (pieces : List (List ℕ)) × (r.1 ≡ some u)
          × (u.state ≡ Stateful.closed_state)
          × (u.io_alive ≡ false)
          × (concat pieces ≡ payload)
          × Negotiated system properties channel_max frame_max heartbeat
              (create_channel0 (socket_open [] s))
              t
          × (u.write_queue
              ≡ t.channel.write_queue
                ++ conversation t.channel.channel_id (
                    message_frames
                      (or_empty exchange)
                      (some (or_empty key))
                      false
                      false
                      (length payload)
                      sent
                      pieces)))
unfolding publish create_channel0 new_channel lend
publish-conversation convert pamqp rounds table_of version system close_connection properties
      channel_max frame_max heartbeat s dumps uuid now exchange key b given sent message payload a w
      n empty sch f made_message e =
    let later : List Happening =
      answers version system close_connection ∷ idle ∷ record idle { io_alive = false } ∷ [] in
    let schedule : List Happening =
      serves version system close_connection properties channel_max frame_max heartbeat ∷ later in
    let (t, connects, negotiated) =
      connect-Negotiated pamqp (suc rounds) version system close_connection properties channel_max
        frame_max heartbeat s later n sch in
    let c : Connection = made t later (socket_open schedule s) in
    let d : Channel =
      own_channel pamqp rounds a (capabilities_in table_of properties) false after_open 1 c in
    let (pieces, writes, joined) =
      send-writes convert pamqp (suc rounds) table_of channel_ticks (return s) message payload sent
        (or_empty exchange) (or_empty key) d e
        (rw (negotiated.frame_size, ← negotiate-agreed s.frame_max frame_max) f)
        (record { exceptions = negotiated.exceptions; connected = refl; open_state = refl }) refl in
    let (ends, (u, is_u, state, alive, queue)) =
      session-writes pamqp rounds a table_of properties version system close_connection
        (send pamqp (suc rounds) table_of channel_ticks (return s) convert false (return message)
          (or_empty exchange) (some (or_empty key)))
        none
        (message_frames (or_empty exchange) (some (or_empty key)) false false (length payload) sent
          pieces)
        s c t connects
        (made-IsReady system properties channel_max frame_max heartbeat s schedule later t empty
          negotiated)
        refl w writes in
    rw made_message (ends, (u, t, pieces, is_u, state, alive, joined, negotiated, queue))
