-- ===== src/Connection/Opening/Served.antt =====
-- A connection that is made with a server that answers (rabbitpy/connection.py): the IO thread opens
-- the socket, and then gives the frames of the server to channel 0.
use rabbitpy.Prelude.{
  ℕ, ◌≡◌, refl, ◌∙◌, ap, true, false, not, ◌==◌, String, Option, none, some, List, [], ◌∷◌,
  append-nil,
}
use rabbitpy.Action.{Action, return, ◌>>◌}
use rabbitpy.Stateful
use rabbitpy.Stateful.{is_open}
use rabbitpy.Events
use rabbitpy.Events.{Events, create_event_objects}
use rabbitpy.Frame.{Frame, FrameClass, Pamqp, Value}
use rabbitpy.Channel0.{Channel0, on_frame, start}
use rabbitpy.Channel0.Handshake.{
  CanStart, Negotiated, start-open, with_state, sent, negotiation, negotiation-Negotiated,
}
use rabbitpy.Connection.State.{Connection, Happening, happen, on_channel0, set_state, raise_next}
use rabbitpy.Connection.Opening.{
  connect, negotiate, channel0_open, wait_negotiated, stop_next, finish, start_channel0,
  create_channel0, start_io, wait_opened,
}

-- A connection as it is constructed.
pub record New (s : Connection) : Type 0 where
  pub exceptions : s.exceptions ≡ []
  pub events : s.events ≡ create_event_objects
  pub channel0 : s.channel0 ≡ none

-- The other threads do no more than this to channel 0, and set these events.
abbrev pub only : List ℕ → (Channel0 → Channel0) → Happening
only events act = record {
  events = events;
  exceptions = [];
  state = none;
  io_alive = true;
  on_channel0 = act;
}

-- The connection once its socket is open.
abbrev pub socket_open : List Happening → Connection → Connection
socket_open later s = record s {
  state = Stateful.opening_state;
  io_alive = true;
  exceptions = [];
  channel0 = none;
  events = (Events.set create_event_objects Events.socket_opened).1;
  schedule = later;
}

socket-opens :
    (s : Connection) (later : List Happening)
    → New s
    → s.schedule ≡ only (Events.socket_opened ∷ []) (λ c. c) ∷ later
    → (set_state Stateful.opening_state >> start_io >> λ s. wait_opened s.schedule s) s
      ≡ (return tt, socket_open later s)
unfolding set_state Stateful.set_state start_io wait_opened raise_next happen create_event_objects
    Events.set Events.is_set
socket-opens s later n t = simp (n.exceptions, n.events, n.channel0, t)

wait_negotiated-open :
    (schedule : List Happening) (s : Connection)
    → channel0_open s ≡ true
    → wait_negotiated schedule s ≡ (return tt, s)
unfolding wait_negotiated
wait_negotiated-open [] s o = rw o refl
wait_negotiated-open (h ∷ later) s o = rw o refl

wait_negotiated-next :
    (h : Happening) (later : List Happening) (s : Connection)
    → channel0_open s ≡ false
    → s.exceptions ≡ []
    → wait_negotiated (h ∷ later) s
      ≡ wait_negotiated later (happen h (record s { schedule = later }))
unfolding wait_negotiated stop_next
wait_negotiated-next h later s o e =
    let next : Action Connection Unit =
      λ r. wait_negotiated later (happen h (record r { schedule = later })) in
    rw o (ap (λ exceptions. stop_next exceptions next s) e)

-- The connection with this channel 0, from which it takes back what they share.
abbrev pub after_channel0 : Channel0 → List Happening → Connection → Connection
after_channel0 c later s = record s {
  exceptions = c.channel.exceptions;
  write_queue = c.channel.write_queue;
  wakeups = c.channel.wakeups;
  state = c.channel.connection_state;
  events = c.events;
  channel0 = some c;
  schedule = later;
}

-- The connection once it is open.
abbrev pub made : Channel0 → List Happening → Connection → Connection
made c later s = record (after_channel0 c later s) {
  max_frame_size = some c.max_frame_size;
  timer = some (not (s.heartbeat == 0));
  state = Stateful.open_state;
}

module _ (act : Channel0 → Channel0) (s : Connection) (later : List Happening)
    (d t : Channel0) where
  acts :
      (l : List Happening)
      → s.io_alive ≡ true
      → act d ≡ t
      → happen (only [] act) (record (after_channel0 d l s) { schedule = later })
        ≡ after_channel0 t later s
  unfolding happen
  acts l i a = rw (append-nil d.channel.exceptions, a, i) refl

  -- Channel 0 is started, and the IO thread then makes it open.
  awaits :
      s.io_alive ≡ true
      → d.channel.state ≡ Stateful.opening_state
      → d.channel.exceptions ≡ []
      → act d ≡ t
      → t.channel.state ≡ Stateful.open_state
      → wait_negotiated (only [] act ∷ later) (after_channel0 d (only [] act ∷ later) s)
        ≡ (return tt, after_channel0 t later s)
  unfolding channel0_open
  awaits i o e a p =
      wait_negotiated-next (only [] act) later (after_channel0 d (only [] act ∷ later) s)
        (rw o refl) e
      ∙ ap (wait_negotiated later) (acts (only [] act ∷ later) i a)
      ∙ wait_negotiated-open later (after_channel0 t later s) (rw p refl)

  negotiates :
      s.io_alive ≡ true
      → s.schedule ≡ only [] act ∷ later
      → start (create_channel0 s) ≡ (return tt, d)
      → d.channel.state ≡ Stateful.opening_state
      → d.channel.exceptions ≡ []
      → act d ≡ t
      → t.channel.state ≡ Stateful.open_state
      → negotiate s ≡ (return tt, made t later s)
  unfolding negotiate start_channel0 on_channel0 finish set_state Stateful.set_state
  negotiates i sch st o e a p = rw (st, sch, awaits i o e a p) refl

-- The frames that a server sends to make a connection.
abbrev pub server :
    (version : ℕ × ℕ) (system : Option String) (close_connection : Action Channel0 Unit)
    → List (String × Value)
    → (channel_max frame_max heartbeat : ℕ) → Action Channel0 Unit
server version system close_connection properties channel_max frame_max heartbeat =
    on_frame version system close_connection (Frame.start version.0 version.1 properties)
    >> on_frame version system close_connection
        (Frame.tune FrameClass.connection_tune channel_max frame_max heartbeat)
    >> on_frame version system close_connection (Frame.bare FrameClass.connection_open_ok)

-- The IO thread gives them to channel 0.
abbrev pub serves :
    (version : ℕ × ℕ) (system : Option String) (close_connection : Action Channel0 Unit)
    → List (String × Value)
    → (channel_max frame_max heartbeat : ℕ) → Happening
serves version system close_connection properties channel_max frame_max heartbeat =
    only []
      λ c. (server version system close_connection properties channel_max frame_max heartbeat c).1

-- A new connection, when the IO thread opens the socket and then hands the server's Start, Tune and
-- OpenOk to channel 0, and nothing else happens: `_connect` returns with the connection open, and
-- channel 0 has negotiated from the state in which it was made, so that the protocol header, StartOk,
-- TuneOk and Open stand behind the write queue in this order. The channels get its frame size, and
-- the heartbeat runs exactly if the interval of the URL is not 0.
pub connect-Negotiated :
    (pamqp : Pamqp) (rounds : ℕ) (version : ℕ × ℕ) (system : Option String)
    (close_connection : Action Channel0 Unit) (properties : List (String × Value))
    (channel_max frame_max heartbeat : ℕ) (s : Connection) (later : List Happening)
    → New s
    → s.schedule
      ≡ only (Events.socket_opened ∷ []) (λ c. c)
        ∷ serves version system close_connection properties channel_max frame_max heartbeat
        ∷ later
    → let u =
        socket_open
          (serves version system close_connection properties channel_max frame_max heartbeat
            ∷ later)
          s in
      (t : Channel0) × (connect pamqp rounds s ≡ (return tt, made t later u))
      × Negotiated system properties channel_max frame_max heartbeat (create_channel0 u) t
unfolding connect
connect-Negotiated pamqp rounds version system close_connection properties channel_max frame_max
      heartbeat s later n sch =
    let server_acts : Channel0 → Channel0 = λ c.
      (server version system close_connection properties channel_max frame_max heartbeat c).1 in
    let u : Connection = socket_open (only [] server_acts ∷ later) s in
    let c : Channel0 = create_channel0 u in
    let d : Channel0 =
      sent (Frame.bare FrameClass.protocol_header ∷ []) (with_state Stateful.opening_state c) in
    let can : CanStart c = record { exceptions = refl; connected = refl } in
    let started : start c ≡ (return tt, d) = start-open c can in
    let (_, negotiated) =
      negotiation-Negotiated version system close_connection properties channel_max frame_max
        heartbeat c can in
    let t : Channel0 =
      (negotiation version system close_connection properties channel_max frame_max heartbeat
        c).1 in
    (
      t,
      rw
          (
            socket-opens s (only [] server_acts ∷ later) n sch,
            negotiates server_acts u later d t refl refl started refl refl (rw started refl)
                negotiated.open_state,
          )
          refl,
      negotiated,
    )
