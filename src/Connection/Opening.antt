-- ===== src/Connection/Opening.antt =====
-- rabbitpy/connection.py: `_connect`, with the constructor and `start` of rabbitpy/channel0.py.
pub mod Opened
pub mod Served
mod Tests
use rabbitpy.Prelude.{
  ℕ, ◌==◌, if◌then◌else◌, Bool, true, false, not, ◌&&◌, Option, none, some, List, [], ◌∷◌,
}
use rabbitpy.Exceptions.{Exception, runtime_error}
use rabbitpy.Action.{Action, Outcome, return, raise, blocked, pure, modify, when, ◌>>=◌, ◌>>◌}
use rabbitpy.Stateful
use rabbitpy.Stateful.{is_closed, is_open, is_opening}
use rabbitpy.Events
use rabbitpy.Events.{holds}
use rabbitpy.Frame.{Pamqp}
use rabbitpy.Channel
use rabbitpy.Channel0
use rabbitpy.Channel0.{Channel0}
use rabbitpy.Connection.State.{
  Connection, Happening, happen, on_channel0, set_state, io_stop, raise_next,
}
use rabbitpy.Connection.Closing.{close}

-- `_create_io_thread`, and its start
start_io : Action Connection Unit
start_io = modify (λ s. record s { io_alive = true })

-- The first `while`: a round either raises or ends with the socket opened.
wait_opened : List Happening → Action Connection Unit
wait_opened schedule s =
    if is_opening s.state && not (holds s.events Events.socket_opened)
    then raise_next s.exceptions
        (λ r. elim schedule [
          | [] ↦ (blocked, r)
          | h ∷ later ↦
              let t : Connection = happen h (record r { schedule = later }) in
              if holds t.events Events.socket_opened
              then (return tt, t)
              else (raise runtime_error, t)
        ])
        s
    else (return tt, s)

-- `_create_channel0`
unfoldable pub create_channel0 : Connection → Channel0
create_channel0 s = record {
  channel = record {
    kind = Channel.channel0;
    channel_id = 0;
    state = Stateful.closed_state;
    blocking_read = false;
    waiting = false;
    interrupt = none;
    consumers = [];
    publisher_confirms = false;
    capabilities = [];
    maximum_frame_size = 0;
    connection_state = s.state;
    exceptions = s.exceptions;
    read_queue = [];
    write_queue = s.write_queue;
    wakeups = s.wakeups;
    schedule = [];
  };
  args = s.args;
  events = s.events;
  max_channels = s.channel_max;
  max_frame_size = s.frame_max;
  heartbeat_interval = some s.heartbeat;
  properties = none;
}

pub channel0_open : Connection → Bool
channel0_open s = elim s.channel0 [ none ↦ false | some c ↦ is_open c.channel.state ]

-- An exception of another thread stops the IO thread and is raised.
stop_next : List Exception → Action Connection Unit → Action Connection Unit
stop_next [] m s = m s
stop_next (e ∷ rest) m s = (io_stop >> λ r. (raise e, r)) (record s { exceptions = rest })

-- The second `while`.
wait_negotiated : List Happening → Action Connection Unit
unfolding channel0_open stop_next
wait_negotiated [] s =
    if channel0_open s then (return tt, s) else stop_next s.exceptions (λ r. (blocked, r)) s
wait_negotiated (h ∷ later) s =
    let rest = wait_negotiated later in
    if channel0_open s
    then (return tt, s)
    else stop_next s.exceptions (λ r. rest (happen h (record r { schedule = later }))) s

-- What is left when the connection is negotiated: the frame size, the heartbeat and the state.
-- `Heartbeat.start` arms no timer for the interval 0.
finish : Action Connection Unit
finish =
    (λ s. (
      return tt,
      record s {
        max_frame_size = elim s.channel0 [ none ↦ none | some c ↦ some c.max_frame_size ];
        timer = some (not (s.heartbeat == 0));
      },
    ))
    >> set_state Stateful.open_state

start_channel0 : Action Connection Unit
unfolding create_channel0
start_channel0 =
    modify (λ s. record s { channel0 = some (create_channel0 s) }) >> on_channel0 Channel0.start

negotiate : Action Connection Unit
unfolding start_channel0 wait_negotiated finish
negotiate = start_channel0 >> (λ s. wait_negotiated s.schedule s) >> finish

module _ (pamqp : Pamqp) (rounds : ℕ) where
  unfoldable pub connect : Action Connection Unit
  unfolding start_io wait_opened negotiate
  connect = set_state Stateful.opening_state >> start_io >> (λ s. wait_opened s.schedule s) >> λ s.
      if is_closed s.state then close pamqp rounds s else negotiate s
