-- ===== src/Connection/Closing/Answered.antt =====
-- The closing of a connection whose server answers (rabbitpy/connection.py).
use mathlib.Core.Path.{subst}
use rabbitpy.Prelude.{
  ℕ, ◌≡◌, refl, sym, ◌∙◌, ap, true, false, String, Option, none, some, List, [], ◌∷◌, ◌++◌,
}
use rabbitpy.Action.{Action, return}
use rabbitpy.Stateful
use rabbitpy.Events
use rabbitpy.Events.{Events, create_event_objects, holds}
use rabbitpy.Frame.{Frame, FrameClass, Pamqp}
use rabbitpy.Channel
use rabbitpy.Channel.{Channel}
use rabbitpy.Channel0.{Channel0, on_frame}
use rabbitpy.Connection.State.{
  Connection, Happening, happen, on_channel0, set_state, set_event, io_stop,
}
use rabbitpy.Connection.Closing.{
  close, waits, wait_on_frame, rpc_close, close_channel0, live, close_channels, close_all_channels,
  trigger_write, wait_closed, join_io, stop_heartbeat, break_loop, stop_io, shutdown_connection,
  mark_closing, on_base,
}

-- The events of a connection that runs.
abbrev pub running_events : Events
running_events =
    (Events.set (Events.set create_event_objects Events.socket_opened).1 Events.channel0_opened).1

-- An open connection with an open channel 0, on which nothing is wrong and no channel is open.
pub record Runs (pamqp : Pamqp) (s : Connection) (c : Channel0) : Type 0 where
  pub exceptions : s.exceptions ≡ []
  pub state : s.state ≡ Stateful.open_state
  pub events : s.events ≡ running_events
  pub channel0 : s.channel0 ≡ some c
  pub open_state : c.channel.state ≡ Stateful.open_state
  pub channels : live s.channels ≡ []
  pub io_alive : s.io_alive ≡ true
  pub waits : pamqp.synchronous FrameClass.connection_close ≡ true

abbrev pub idle : Happening
idle = record { events = []; exceptions = []; state = none; io_alive = true; on_channel0 = λ c. c }

-- The connection and its channel 0 with the fields on which the closing depends.
abbrev running : List Happening → Channel0 → Connection → Connection
running schedule c s = record s {
  exceptions = [];
  state = Stateful.open_state;
  events = running_events;
  channel0 = some (record c { channel = record c.channel { state = Stateful.open_state } });
  io_alive = true;
  schedule = schedule;
}

running-eq :
    (pamqp : Pamqp) (s : Connection) (c : Channel0) (schedule : List Happening)
    → Runs pamqp s c
    → s.schedule ≡ schedule
    → s ≡ running schedule c s
running-eq pamqp s c schedule r t =
    let opened : c ≡ record c { channel = record c.channel { state = Stateful.open_state } } =
      ap (λ state. record c { channel = record c.channel { state = state } }) r.open_state in
    cc (r.exceptions, r.state, r.events, r.channel0 ∙ ap some opened, r.io_alive, t)

-- The IO thread gives the server's CloseOk to channel 0.
abbrev pub answers :
    (version : ℕ × ℕ) (system : Option String) (close_connection : Action Channel0 Unit) → Happening
answers version system close_connection = record idle {
  on_channel0 = λ c.
      (on_frame version system close_connection (Frame.bare FrameClass.connection_close_ok) c).1;
}

module _ (pamqp : Pamqp) (rounds : ℕ) (version : ℕ × ℕ) (system : Option String)
    (close_connection : Action Channel0 Unit) where
  closes :
      (s : Connection) (c : Channel0)
      → live s.channels ≡ []
      → pamqp.synchronous FrameClass.connection_close ≡ true
      → let r = close pamqp rounds (
          running
            (answers version system close_connection ∷ idle ∷ record idle { io_alive = false } ∷ [])
            c
            s) in
        (r.0 ≡ return tt)
        × (r.1.state ≡ Stateful.closed_state)
        × (r.1.io_alive ≡ false)
        × (r.1.write_queue
            ≡ s.write_queue ++ (c.channel.channel_id, Frame.bare FrameClass.connection_close) ∷ [])
  unfolding close set_state Stateful.set_state happen on_channel0 set_event io_stop on_frame
      create_event_objects Events.set Events.is_set Events.clear Channel.set_state
      Channel.write_frame Channel.can_write Channel.check_for_exceptions mark_closing
      shutdown_connection stop_io break_loop close_all_channels close_channels close_channel0
      rpc_close on_base wait_on_frame waits stop_heartbeat wait_closed join_io trigger_write
  closes s c none_live sync = rw (none_live, sync) (refl, refl, refl, refl)

-- A connection that runs without an open channel, when channel 0 gets the answer to Connection.Close
-- and the IO thread ends after it, and nothing else happens: `close` returns, Connection.Close is the
-- one frame that it queues, the IO thread has ended and the connection is closed.
pub close-answered :
    (pamqp : Pamqp) (rounds : ℕ) (version : ℕ × ℕ) (system : Option String)
    (close_connection : Action Channel0 Unit) (s : Connection) (c : Channel0)
    → Runs pamqp s c
    → s.schedule
      ≡ answers version system close_connection ∷ idle ∷ record idle { io_alive = false } ∷ []
    → let r = close pamqp rounds s in
      (r.0 ≡ return tt)
      × (r.1.state ≡ Stateful.closed_state)
      × (r.1.io_alive ≡ false)
      × (r.1.write_queue
          ≡ s.write_queue ++ (c.channel.channel_id, Frame.bare FrameClass.connection_close) ∷ [])
close-answered pamqp rounds version system close_connection s c r t =
    let schedule : List Happening =
      answers version system close_connection ∷ idle ∷ record idle { io_alive = false } ∷ [] in
    subst
      (λ u.
        ((close pamqp rounds u).0 ≡ return tt)
        × ((close pamqp rounds u).1.state ≡ Stateful.closed_state)
        × ((close pamqp rounds u).1.io_alive ≡ false)
        × ((close pamqp rounds u).1.write_queue
            ≡ s.write_queue ++ (c.channel.channel_id, Frame.bare FrameClass.connection_close) ∷ []))
      (sym (running-eq pamqp s c schedule r t))
      (closes pamqp rounds version system close_connection s c r.channels r.waits)
