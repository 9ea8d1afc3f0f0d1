-- ===== src/Simple/Tests.antt =====
-- Runs of the functions of rabbitpy/simple.py.
use rabbitpy.Prelude.{ℕ, ◌≡◌, refl, true, false, none, some, Option, List, [], ◌∷◌, ◌++◌, arith}
use rabbitpy.Exceptions.{value_error}
use rabbitpy.Stateful
use rabbitpy.Action.{Outcome, return, raise}
use rabbitpy.Frame
use rabbitpy.Frame.{Frame, FrameClass, str, bytes}
use rabbitpy.Frame.Sample.{sample}
use rabbitpy.Channel.{Tick}
use rabbitpy.Channel.Wait.Order.{quiet}
use rabbitpy.Channel.Wait.Answer.{arrives}
use rabbitpy.Connection.State.{Connection}
use rabbitpy.Connection.Sample.{fresh, opens, serves, answers, nothing, ends, close_nothing}
use rabbitpy.Connection.Opening.{create_channel0}
use rabbitpy.Connection.Opening.Served.{socket_open}
use rabbitpy.Channel.Api.Lifecycle.{Answered}
use rabbitpy.Channel.Wait.{validate_frame_type}
use rabbitpy.Channel0.{Channel0, negotiate}
use rabbitpy.Channel0.Handshake.{Negotiated}
use rabbitpy.Message.Body.{concat}
use rabbitpy.Message.Create.{create, plain}
use rabbitpy.Message.Properties.{
  Convert, Properties, type_fails, maybe_utf8_encode, coerce_properties, prune_invalid_properties,
  invalid_properties, delete_all,
}
use rabbitpy.Message.Publish.{Message}
use rabbitpy.Message.Publish.Frames.{message_frames}
use rabbitpy.Simple.Published.{session, publish-conversation}
use rabbitpy.Simple.Session.Writes.{channel_ticks, conversation}
use rabbitpy.Simple.Functions.{delete_queue, named, validate_name, publish}
use rabbitpy.Simple.Calls.{Call, creates_direct, perform, HasClosed, perform-HasClosed}

-- The server answers Channel.Open, Exchange.Declare and Channel.Close.
abbrev ticks : List Tick
ticks =
    arrives (Frame.bare FrameClass.channel_open_ok ∷ [])
    ∷ arrives (Frame.bare FrameClass.exchange_declare_ok ∷ [])
    ∷ quiet
    ∷ arrives (Frame.bare FrameClass.channel_close_ok ∷ [])
    ∷ []

abbrev created : Outcome Connection
created = return (fresh (opens ∷ serves ∷ answers ∷ nothing ∷ ends ∷ []))

abbrev call : Call
call = creates_direct (some "events") true

abbrev written : Option Connection → List (ℕ × Frame)
written none = []
written (some c) = c.write_queue

-- A program of its own: it connects, opens a channel, declares the exchange and closes both. This is
-- all that it has sent.
run_call :
    ((perform sample 5 (λ _. []) ticks created call).0 ≡ return tt)
    × (written (perform sample 5 (λ _. []) ticks created call).1
        ≡ (0, Frame.bare FrameClass.protocol_header)
          ∷ (0, Frame.start_ok "\0guest\0guest" "en-US")
          ∷ (0, Frame.tune FrameClass.connection_tune_ok 2047 131072 60)
          ∷ (0, Frame.open_connection "/")
          ∷ (1, Frame.bare FrameClass.channel_open)
          ∷ (1, Frame.declare_exchange "events" "direct" true false false [])
          ∷ (1, Frame.close FrameClass.channel_close 200 "Normal Shutdown")
          ∷ (0, Frame.bare FrameClass.connection_close)
          ∷ [])
unfolding perform rabbitpy.Simple.Functions.create_direct_exchange rabbitpy.Simple.Functions.named
    rabbitpy.Simple.Functions.simply rabbitpy.Simple.with_channel
    rabbitpy.Connection.Opening.connect rabbitpy.Connection.State.set_state
    rabbitpy.Stateful.set_state rabbitpy.Events.is_set rabbitpy.Events.create_event_objects
    rabbitpy.Connection.State.raise_next rabbitpy.Connection.State.happen rabbitpy.Events.set
    rabbitpy.Connection.State.on_channel0 rabbitpy.Channel0.start rabbitpy.Channel.set_state
    rabbitpy.Channel.write_frame rabbitpy.Channel0.on_frame rabbitpy.Connection.Channels.channel
    rabbitpy.Connection.get_next_channel_id rabbitpy.Connection.State.lend
    rabbitpy.Connection.State.take_back rabbitpy.Channel.Api.open_channel
    rabbitpy.Channel.Wait.wait_on_frame rabbitpy.Channel.Wait.read_from_queue
    rabbitpy.Channel.Wait.validate_frame_type rabbitpy.Channel.Wait.normalize
    rabbitpy.Frame.class_of rabbitpy.Simple.on_channel rabbitpy.Channel.Api.channel_rpc
    rabbitpy.Channel.Wait.rpc rabbitpy.Channel.check_for_rpc_request
    rabbitpy.Connection.Closing.close rabbitpy.Connection.Closing.close_channel
    rabbitpy.Connection.Closing.find rabbitpy.Connection.Closing.put rabbitpy.Channel.Api.close
    rabbitpy.Connection.State.set_event rabbitpy.Connection.State.io_stop rabbitpy.Events.clear
    rabbitpy.Exchange.declare rabbitpy.Exchange.direct_exchange
run_call = (refl, refl)

perform-HasClosed_example : HasClosed (perform sample 5 (λ _. []) ticks created call).1
perform-HasClosed_example = perform-HasClosed sample 5 (λ _. []) ticks created call run_call.0

-- A name is wanted before a connection is made.
unnamed :
    delete_queue sample 5 (λ _. []) ticks created (some "") ≡ (raise (value_error "queue"), none)
unfolding delete_queue named validate_name
unnamed = refl

abbrev convert : Convert
convert = record {
  attributes = "app_id" ∷ [];
  property_type = λ _. "shortstr";
  to_str = λ _. "";
  to_int = λ _. type_fails;
  encode = λ _. 104 ∷ 105 ∷ [];
  from_struct_time = λ n. n;
  from_timestamp = λ _. 0;
}

abbrev message : Message
message = record { delivery_tag = none; properties = ("app_id", str "tests") ∷ []; body = str "hi" }

abbrev coerced : Properties
coerced = ("app_id", bytes (104 ∷ 105 ∷ [])) ∷ []

abbrev waiting : Connection
waiting = fresh (session (0, 9) none close_nothing [] 2047 131072 60)

run_create :
    create convert
      (λ _. "")
      "id"
      5
      (plain (str "hi"))
      (some (("app_id", str "tests") ∷ []))
      false
      false
    ≡ return message
unfolding create invalid_properties
run_create = refl

run_coerce :
    coerce_properties convert (prune_invalid_properties convert message.properties)
    ≡ (return tt, coerced)
unfolding coerce_properties prune_invalid_properties invalid_properties delete_all maybe_utf8_encode
run_coerce = refl

run_encode : maybe_utf8_encode convert (str "hi") ≡ bytes (104 ∷ 105 ∷ [])
unfolding maybe_utf8_encode
run_encode = refl

sizes : negotiate 131072 131072 ≡ 131072
unfolding negotiate
sizes = refl

answered : Answered sample
unfolding validate_frame_type rabbitpy.Frame.class_of
answered = record { opens = refl; waits = refl; closes = refl }

publish-conversation_example :
    let r =
      publish sample 5
        (λ _. [])
        channel_ticks
        (return waiting)
        convert
        (λ _. "")
        "id"
        5
        (some "events")
        (some "key")
        (some (plain (str "hi")))
        (some (("app_id", str "tests") ∷ []))
        false in
    (r.0 ≡ return none)
    × ((u : Connection) × (t : Channel0) × (pieces : List (List ℕ)) × (r.1 ≡ some u)
        × (u.state ≡ Stateful.closed_state)
        × (u.io_alive ≡ false)
        × (concat pieces ≡ 104 ∷ 105 ∷ [])
        × Negotiated none [] 2047 131072 60 (create_channel0 (socket_open [] waiting)) t
        × (u.write_queue
            ≡ t.channel.write_queue
              ++ conversation t.channel.channel_id
                  (message_frames "events" (some "key") false false 2 coerced pieces)))
publish-conversation_example =
    publish-conversation convert sample 4 (λ _. []) (0, 9) none close_nothing [] 2047 131072 60
      waiting (λ _. "") "id" 5 (some "events") (some "key") (plain (str "hi"))
      (("app_id", str "tests") ∷ []) coerced message (104 ∷ 105 ∷ []) answered refl
      (record { exceptions = refl; events = refl; channel0 = refl }) refl refl
      (rw sizes (omega arith)) run_create
      (record { payload_bytes = run_encode; coerced = run_coerce })
