-- ===== src/Connection/State.antt =====
-- rabbitpy/connection.py: the state of a connection and what acts on it, with `stop` of
-- rabbitpy/io.py. Opening and Closing hold `_connect` and `close`.
--
-- A connection, its channels and channel 0 share the events, the queue of exceptions and the queue
-- of frames: each of them is lent these when it acts. What the IO thread and the user's other
-- threads do while the connection sleeps or waits is a schedule of happenings. Of the IO
-- thread it is modelled whether it is alive, of the heartbeat checker its timer.
use rabbitpy.Prelude.{ℕ, Bool, ◌&&◌, Option, none, some, List, [], ◌∷◌, ◌++◌}
use rabbitpy.Exceptions.{Exception, attribute_error}
use rabbitpy.Action.{Action, raise, modify}
use rabbitpy.Stateful
use rabbitpy.Stateful.{is_closed, is_open, is_opening}
use rabbitpy.Events
use rabbitpy.Events.{Events, holds}
use rabbitpy.Frame.{Frame}
use rabbitpy.Channel.{Channel}
use rabbitpy.Channel0
use rabbitpy.Channel0.{Channel0}

-- What the other threads do at one step: the events that they set, the exceptions that they queue,
-- a state that they give the connection, whether the IO thread goes on, and what it does to
-- channel 0.
pub record Happening : Type 0 where
  pub events : List ℕ
  pub exceptions : List Exception
  pub state : Option ℕ
  pub io_alive : Bool
  pub on_channel0 : Channel0 → Channel0

pub record Connection : Type 0 where
  pub args : Channel0.Args
  pub channel_max : ℕ
  pub frame_max : ℕ
  pub heartbeat : ℕ
  pub state : ℕ
  pub events : Events
  pub exceptions : List Exception
  pub write_queue : List (ℕ × Frame)
  pub wakeups : ℕ
  pub channel0 : Option Channel0
  pub channels : List (ℕ × Channel)
  pub timer : Option Bool
  pub io_alive : Bool
  pub max_frame_size : Option ℕ
  pub schedule : List Happening

unfoldable pub lend : Connection → Channel → Channel
lend s c = record c {
  exceptions = s.exceptions;
  write_queue = s.write_queue;
  wakeups = s.wakeups;
  connection_state = s.state;
}

unfoldable pub take_back : Channel → Connection → Connection
take_back c s = record s {
  exceptions = c.exceptions;
  write_queue = c.write_queue;
  wakeups = c.wakeups;
  state = c.connection_state;
}

lend0 : Connection → Channel0 → Channel0
unfolding lend
lend0 s c = record c { channel = lend s c.channel; events = s.events }

take_back0 : Channel0 → Connection → Connection
unfolding take_back
take_back0 c s = record (take_back c.channel s) { events = c.events; channel0 = some c }

-- Before `_connect` made channel 0, it is None.
unfoldable pub on_channel0 : Action Channel0 Unit → Action Connection Unit
unfolding lend0 take_back0
on_channel0 m s = elim s.channel0 [
  | none ↦ (raise attribute_error, s)
  | some c ↦ ((m (lend0 s c)).0, take_back0 (m (lend0 s c)).1 s)
]

set_events : List ℕ → Events → Events
set_events [] e = e
set_events (event_id ∷ ids) e = set_events ids (Events.set e event_id).1

act0 : (Channel0 → Channel0) → Connection → Connection
unfolding lend0 take_back0
act0 act s = elim s.channel0 [ none ↦ s | some c ↦ take_back0 (act (lend0 s c)) s ]

unfoldable pub happen : Happening → Connection → Connection
unfolding set_events act0
happen h s =
    let r : Connection = record s {
      events = set_events h.events s.events;
      exceptions = s.exceptions ++ h.exceptions;
      state = elim h.state [ none ↦ s.state | some state ↦ state ];
      io_alive = s.io_alive && h.io_alive;
    } in
    act0 h.on_channel0 r

unfoldable pub set_state : ℕ → Action Connection Unit
set_state value s = (
  (Stateful.set_state value s.state).0,
  record s { state = (Stateful.set_state value s.state).1 },
)

unfoldable pub set_event : ℕ → Action Connection Unit
set_event event_id = modify (λ s. record s { events = (Events.set s.events event_id).1 })

-- `IO.stop`, which closes the sockets
unfoldable pub io_stop : Action Connection Unit
io_stop = modify λ s. record s {
  events = (Events.set (Events.clear s.events Events.socket_opened).1 Events.socket_closed).1;
}

-- `self._exceptions.get()` and its raise, where there is one
unfoldable pub raise_next : List Exception → Action Connection Unit → Action Connection Unit
raise_next [] m s = m s
raise_next (e ∷ rest) m s = (raise e, record s { exceptions = rest })
