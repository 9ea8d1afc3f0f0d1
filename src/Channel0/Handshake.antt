-- ===== src/Channel0/Handshake.antt =====
-- The negotiation of a connection (rabbitpy/channel0.py) from the protocol header to
-- Connection.OpenOk.
use rabbitpy.Prelude.{
  ℕ, ◌≡◌, refl, false, String, str_append, Option, some, List, [], ◌∷◌, ◌++◌, map, arith, ap,
}
use rabbitpy.Action.{Action, return, ◌>>◌}
use rabbitpy.Stateful
use rabbitpy.Stateful.{is_closed}
use rabbitpy.Events
use rabbitpy.Events.{Events}
use rabbitpy.Frame.{Frame, FrameClass, Value}
use rabbitpy.Channel
use rabbitpy.Channel.{Channel, write_frame}
use rabbitpy.Channel.Writes.{CanWrite, wrote, write_frame-open}
use rabbitpy.Channel0.Agreed.{
  agreed, agreed_interval, first_text, negotiate-agreed, negotiate_heartbeat-agreed,
  get_locale-first_text,
}
use rabbitpy.Channel0.{
  Channel0, credentials, start, on_frame, tuned, write, build_tune_ok_frame, build_start_ok_frame,
  build_open_frame,
}

-- Nothing stands in the way of writing: no exception is queued and the connection is not closed.
pub record CanStart (s : Channel0) : Type 0 where
  pub exceptions : s.channel.exceptions ≡ []
  pub connected : is_closed s.channel.connection_state ≡ false

-- Channel 0 after it has queued these frames, waking the IO thread for each.
abbrev pub sent : List Frame → Channel0 → Channel0
sent [] s = s
sent (f ∷ fs) s = sent fs (record s { channel = wrote (f ∷ []) s.channel })

write-open :
    (f : Frame) (s : Channel0) → CanWrite s.channel → write f s ≡ (return tt, sent (f ∷ []) s)
unfolding write
write-open f s w = rw (write_frame-open f s.channel w) refl

abbrev pub with_state : ℕ → Channel0 → Channel0
with_state state s = record s { channel = record s.channel { state = state } }

pub start-open :
    (s : Channel0)
    → CanStart s
    → start s ≡ (
      return tt,
      sent (Frame.bare FrameClass.protocol_header ∷ []) (with_state Stateful.opening_state s),
    )
unfolding start Channel.set_state Stateful.set_state
start-open s c =
    write-open (Frame.bare FrameClass.protocol_header) (with_state Stateful.opening_state s)
      (record { exceptions = c.exceptions; connected = c.connected; open_state = refl })

module _ (version : ℕ × ℕ) (system : Option String) (close_connection : Action Channel0 Unit) where
  abbrev on : Frame → Action Channel0 Unit
  on = on_frame version system close_connection

  -- Channel 0 once the server has presented itself.
  abbrev known : List (String × Value) → Channel0 → Channel0
  known server_properties s = record s { properties = some server_properties }

  on_start :
      (server_properties : List (String × Value)) (s : Channel0)
      → CanWrite s.channel
      → on (Frame.start version.0 version.1 server_properties) s
        ≡ (return tt, sent (build_start_ok_frame system s.args ∷ []) (known server_properties s))
  unfolding on_frame
  on_start server_properties s w =
      ground (arith, write-open (build_start_ok_frame system s.args) (known server_properties s) w)

  on_tune :
      (channel_max frame_max heartbeat : ℕ) (s : Channel0)
      → CanWrite s.channel
      → on (Frame.tune FrameClass.connection_tune channel_max frame_max heartbeat) s ≡ (
        return tt,
        sent
            (build_tune_ok_frame (tuned channel_max frame_max heartbeat s)
              ∷ build_open_frame s
              ∷ [])
            (tuned channel_max frame_max heartbeat s),
      )
  unfolding on_frame
  on_tune channel_max frame_max heartbeat s w =
      let t : Channel0 = tuned channel_max frame_max heartbeat s in
      let u : Channel0 = sent (build_tune_ok_frame t ∷ []) t in
      let v : CanWrite s.channel → CanWrite u.channel = λ w. record {
        exceptions = w.exceptions;
        connected = w.connected;
        open_state = w.open_state;
      } in
      ground
        (arith, write-open (build_tune_ok_frame t) t w, write-open (build_open_frame s) u (v w))

  -- Channel 0 once it is open.
  abbrev opened : Channel0 → Channel0
  opened s = record (with_state Stateful.open_state s) {
    events = (Events.set s.events Events.channel0_opened).1;
  }

  on_open_ok :
      (s : Channel0) → on (Frame.bare FrameClass.connection_open_ok) s ≡ (return tt, opened s)
  unfolding on_frame Channel.set_state Stateful.set_state
  on_open_ok s = refl

  -- The server's side of a negotiation: Start, Tune and OpenOk, after the client's header.
  abbrev pub negotiation :
      List (String × Value) → (channel_max frame_max heartbeat : ℕ) → Action Channel0 Unit
  negotiation server_properties channel_max frame_max heartbeat =
      start
      >> on (Frame.start version.0 version.1 server_properties)
      >> on (Frame.tune FrameClass.connection_tune channel_max frame_max heartbeat)
      >> on (Frame.bare FrameClass.connection_open_ok)

  module _ (server_properties : List (String × Value)) (channel_max frame_max heartbeat : ℕ)
      (s : Channel0) where
    abbrev before : Channel0
    before =
        known server_properties
          (sent (Frame.bare FrameClass.protocol_header ∷ []) (with_state Stateful.opening_state s))

    abbrev after : Channel0
    after =
        tuned channel_max frame_max heartbeat
          (sent (build_start_ok_frame system s.args ∷ []) before)

    negotiation-eq :
        CanStart s
        → negotiation server_properties channel_max frame_max heartbeat s
          ≡ (return tt, opened (sent (build_tune_ok_frame after ∷ build_open_frame s ∷ []) after))
    unfolding on_frame tuned Events.set
    negotiation-eq c =
        let w : CanWrite (with_state Stateful.opening_state s).channel = record {
          exceptions = c.exceptions;
          connected = c.connected;
          open_state = refl;
        } in
        rw
          (
            start-open s c,
            on_start server_properties
                (sent (Frame.bare FrameClass.protocol_header ∷ [])
                  (with_state Stateful.opening_state s))
                (record { exceptions = w.exceptions; connected = w.connected; open_state = refl }),
            on_tune channel_max frame_max heartbeat
                (sent (build_start_ok_frame system s.args ∷ []) before)
                (record { exceptions = w.exceptions; connected = w.connected; open_state = refl }),
            on_open_ok (sent (build_tune_ok_frame after ∷ build_open_frame s ∷ []) after),
          )
          refl

-- Four frames queued one by one stand behind the queue in their order.
append_four :
    {A : Type 0} (q : List A) (a b c d : A)
    → (((q ++ a ∷ []) ++ b ∷ []) ++ c ∷ []) ++ d ∷ [] ≡ q ++ a ∷ b ∷ c ∷ d ∷ []
append_four [] a b c d = refl
append_four (x ∷ q) a b c d = ap (λ l. x ∷ l) (append_four q a b c d)

-- What a negotiation leaves behind, in the state after it: the four frames with the credentials, the
-- locale and the agreed limits, an open channel whose event is set, and the limits themselves.
pub record Negotiated (system : Option String) (server_properties : List (String × Value))
    (channel_max frame_max heartbeat : ℕ) (s t : Channel0) : Type 0 where
  pub frames :
      t.channel.write_queue
      ≡ s.channel.write_queue
        ++ map
            (λ f. (s.channel.channel_id, f))
            (Frame.bare FrameClass.protocol_header
              ∷ Frame.start_ok
                  (str_append "\0" (str_append s.args.username (str_append "\0" s.args.password)))
                  (first_text (s.args.locale ∷ system ∷ some "en-US" ∷ []))
              ∷ Frame.tune FrameClass.connection_tune_ok
                  (agreed s.max_channels channel_max)
                  (agreed s.max_frame_size frame_max)
                  (agreed_interval s.heartbeat_interval heartbeat)
              ∷ Frame.open_connection s.args.virtual_host
              ∷ [])
  pub open_state : t.channel.state ≡ Stateful.open_state
  pub opened : t.events ≡ (Events.set s.events Events.channel0_opened).1
  pub frame_size : t.max_frame_size ≡ agreed s.max_frame_size frame_max
  pub channels : t.max_channels ≡ agreed s.max_channels channel_max
  pub interval : t.heartbeat_interval ≡ some (agreed_interval s.heartbeat_interval heartbeat)
  pub server : t.properties ≡ some server_properties
  pub exceptions : t.channel.exceptions ≡ s.channel.exceptions
  pub connection : t.channel.connection_state ≡ s.channel.connection_state
  pub id : t.channel.channel_id ≡ s.channel.channel_id

-- On a connection without queued exceptions that is not closed, a negotiation with a server of the
-- right version that sends Start, Tune and OpenOk ends without an exception. The client's four
-- frames are queued in this order: the protocol header; StartOk with the user and the password, each
-- behind a zero byte, and the first locale that is set; TuneOk with the agreed number of channels,
-- frame size and heartbeat interval; Open with the virtual host. The two limits are the lower one of
-- the client's and the server's, where 0 is no limit; the interval is the client's, or the server's
-- if it has none, or 0 if either is 0. The channel is open, its event is set, and it holds the
-- agreed limits and the server's properties; the queue of exceptions, the connection's state and the
-- number of the channel are as before.
pub negotiation-Negotiated :
    (version : ℕ × ℕ) (system : Option String) (close_connection : Action Channel0 Unit)
    (server_properties : List (String × Value)) (channel_max frame_max heartbeat : ℕ) (s : Channel0)
    → CanStart s
    → ((negotiation version system close_connection server_properties channel_max frame_max
          heartbeat s).0
        ≡ return tt)
      × Negotiated system server_properties channel_max frame_max heartbeat s
          (negotiation version system close_connection server_properties channel_max frame_max
            heartbeat s).1
unfolding build_start_ok_frame build_open_frame build_tune_ok_frame tuned credentials
negotiation-Negotiated version system close_connection server_properties channel_max frame_max
      heartbeat s c =
    rw
      (
        negotiation-eq version system close_connection server_properties channel_max frame_max
            heartbeat s c,
        negotiate-agreed s.max_channels channel_max,
        negotiate-agreed s.max_frame_size frame_max,
        negotiate_heartbeat-agreed s.heartbeat_interval heartbeat,
        get_locale-first_text system s.args,
      )
      (
        refl,
        record {
          frames = append_four s.channel.write_queue _ _ _ _;
          open_state = refl;
          opened = refl;
          frame_size = refl;
          channels = refl;
          interval = refl;
          server = refl;
          exceptions = refl;
          connection = refl;
          id = refl;
        },
      )
