-- ===== src/Connection/Closing.antt =====
-- rabbitpy/connection.py: `close`, `_shutdown_connection` and `_close_all_channels`, with `close` of
-- rabbitpy/channel0.py.
--
-- Channel 0 waits for the answer to Connection.Close in `_wait_on_frame`. The IO thread gives its
-- frames to `on_frame` and never to its read queue, so that each of its reads ends without a frame:
-- the wait ends when `on_frame` has changed the state of channel 0.
pub mod Ends
pub mod Answered
mod Tests
use rabbitpy.Prelude.{
  ℕ, ◌+◌, ◌==◌, if◌then◌else◌, Bool, true, false, not, ◌&&◌, ◌||◌, Option, none, some, List, [],
  ◌∷◌,
}
use rabbitpy.Exceptions.{Exception, connection_closed, attribute_error, key_error}
use rabbitpy.Action.{
  Action, Outcome, return, raise, blocked, pure, throw, modify, when, zoom, ◌>>=◌, ◌>>◌,
}
use rabbitpy.Stateful
use rabbitpy.Stateful.{is_closed, is_open, is_opening}
use rabbitpy.Events
use rabbitpy.Events.{holds}
use rabbitpy.Frame.{Frame, FrameClass, Pamqp}
use rabbitpy.Channel
use rabbitpy.Channel.{Channel, can_write, check_for_exceptions, write_frame}
use rabbitpy.Channel.Api
use rabbitpy.Channel0.{Channel0}
use rabbitpy.Connection.State.{
  Connection, Happening, happen, lend, take_back, on_channel0, set_state, set_event, io_stop,
}

on_base : Action Channel Unit → Action Connection Unit
on_base m = on_channel0 (zoom (λ c. c.channel) (λ d c. record c { channel = d }) m)

-- The test of the `while`.
waits : (start_state : ℕ) → Connection → Bool
waits start_state s = elim s.channel0 [
  | none ↦ false
  | some c ↦
      (start_state == c.channel.state) && not (is_closed c.channel.state) && not (is_closed s.state)
]

-- `_wait_on_frame` on channel 0
wait_on_frame : (start_state : ℕ) → List Happening → Action Connection Unit
unfolding waits on_base
wait_on_frame start_state [] s =
    if waits start_state s
    then (on_base (can_write >> pure tt) >> λ r. (blocked, r)) s
    else (return tt, s)
wait_on_frame start_state (h ∷ later) s =
    if waits start_state s
    then (on_base (can_write >> pure tt)
          >> modify (λ r. happen h (record r { schedule = later }))
          >> on_base check_for_exceptions
          >> wait_on_frame start_state later)
        s
    else (return tt, s)

unfoldable pub find : ℕ → List (ℕ × Channel) → Option Channel
find id [] = none
find id ((i, c) ∷ rest) = if i == id then some c else find id rest

unfoldable pub put : ℕ → Channel → List (ℕ × Channel) → List (ℕ × Channel)
put id c [] = []
put id c ((i, d) ∷ rest) = if i == id then (i, c) ∷ rest else (i, d) ∷ put id c rest

-- The numbers of the channels that are not closed.
unfoldable pub live : List (ℕ × Channel) → List ℕ
live [] = []
live ((id, c) ∷ rest) = if is_closed c.state then live rest else id ∷ live rest

-- `self.rpc(specification.Connection.Close())`, on a channel 0 that is closing
module _ (pamqp : Pamqp) (rounds : ℕ) where
  rpc_close : Action Connection Unit
  unfolding on_base wait_on_frame
  rpc_close s =
      (on_base (write_frame (Frame.bare FrameClass.connection_close)) >> (λ r.
          when (pamqp.synchronous FrameClass.connection_close)
            (on_base check_for_exceptions >> wait_on_frame Stateful.closing_state r.schedule) r))
        s

  -- Channel0.close
  close_channel0 : Action Connection Unit
  unfolding on_base rpc_close
  close_channel0 s = elim s.channel0 [
    | none ↦ (raise attribute_error, s)
    | some c ↦
        when (is_open c.channel.state)
          (on_base (Channel.set_state Stateful.closing_state) >> rpc_close) s
  ]

  -- `self._channels[chan_id].close()`
  unfoldable pub close_channel : ℕ → Action Connection Unit
  unfolding find put
  close_channel id s = elim (find id s.channels) [
    | none ↦ (raise (key_error "channel"), s)
    | some c ↦
        let r = Api.close pamqp rounds (lend s c) in
        (r.0, take_back r.1 (record s { channels = put id r.1 s.channels }))
  ]

  close_channels : List ℕ → Action Connection Unit
  unfolding close_channel
  close_channels [] = pure tt
  close_channels (id ∷ ids) = close_channel id >> close_channels ids

  -- `_close_all_channels`
  pub close_all_channels : Action Connection Unit
  unfolding close_channels live close_channel0
  close_all_channels s = (close_channels (live s.channels) >> close_channel0) s

  trigger_write : Action Connection Unit
  trigger_write = modify (λ s. record s { wakeups = s.wakeups + 1 })

  -- `self._events.wait(events.SOCKET_CLOSED, 0.1)`
  wait_closed : List Happening → Action Connection Unit
  wait_closed [] s = (blocked, s)
  wait_closed (h ∷ later) s = (return tt, happen h (record s { schedule = later }))

  -- `while self._io.is_alive(): time.sleep(0.1)`
  join_io : List Happening → Action Connection Unit
  join_io [] s = if s.io_alive then (blocked, s) else (return tt, s)
  join_io (h ∷ later) s =
      if s.io_alive
      then join_io later (happen h (record s { schedule = later }))
      else (return tt, s)

  stop_heartbeat : Action Connection Unit
  stop_heartbeat =
      modify λ s. record s { timer = elim s.timer [ none ↦ none | some armed ↦ some false ] }

  -- The part behind the closing of the channels: the IO loop is told to end, and awaited.
  break_loop : Action Connection Unit
  unfolding trigger_write wait_closed
  break_loop =
      set_event Events.socket_close
      >> trigger_write
      >> (λ s.
          when (holds s.events Events.socket_opened && not (holds s.events Events.socket_closed))
            (wait_closed s.schedule) s)
      >> io_stop

  stop_io : Action Connection Unit
  unfolding break_loop join_io
  stop_io = break_loop >> λ s. join_io s.schedule s

  -- `_shutdown_connection`
  pub shutdown_connection : Action Connection Unit
  unfolding stop_heartbeat close_all_channels stop_io
  shutdown_connection = stop_heartbeat >> λ s.
      if holds s.events Events.socket_closed then io_stop s else (close_all_channels >> stop_io) s

  mark_closing : Action Connection Unit
  mark_closing s =
      when (not (holds s.events Events.socket_closed)) (set_state Stateful.closing_state) s

  unfoldable pub close : Action Connection Unit
  unfolding mark_closing shutdown_connection
  close s =
      if not (is_open s.state) && not (is_opening s.state)
      then (raise connection_closed, s)
      else (mark_closing >> shutdown_connection >> set_state Stateful.closed_state) s

  -- `__exit__`, by the exception with which the block ended
  unfoldable pub exit : Option Exception → Action Connection Unit
  unfolding close
  exit (some exc_val) = set_state Stateful.closed_state >> throw exc_val
  exit none = close
