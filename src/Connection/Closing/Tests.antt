-- ===== src/Connection/Closing/Tests.antt =====
-- A run of `close` on a connection (rabbitpy/connection.py).
use rabbitpy.Prelude.{◌≡◌, refl, false, none, some, [], ◌∷◌, ◌++◌}
use rabbitpy.Action.{return, raise}
use rabbitpy.Exceptions.{connection_closed}
use rabbitpy.Stateful
use rabbitpy.Events
use rabbitpy.Events.{holds}
use rabbitpy.Frame.Sample.{sample}
use rabbitpy.Connection.State.{
  Connection, set_state, set_event, raise_next, happen, on_channel0, io_stop,
}
use rabbitpy.Channel
use rabbitpy.Channel.{check_for_exceptions, can_write}
use rabbitpy.Channel0
use rabbitpy.Connection.Sample.{fresh, opens, serves, answers, nothing, ends, close_nothing}
use rabbitpy.Connection.Opening.{connect, create_channel0}
use rabbitpy.Connection.Closing.{close, live}
use rabbitpy.Channel0.{Channel0}
use rabbitpy.Frame.{Frame, FrameClass}
use rabbitpy.Connection.Closing.Answered.{answers as close_ok, idle, running_events, close-answered}
use rabbitpy.Connection.Closing.Ends.{close_lem}

-- A connection whose server answers Connection.Close, after which the IO thread ends.
abbrev connected : Connection
connected = (connect sample 5 (fresh (opens ∷ serves ∷ answers ∷ nothing ∷ ends ∷ []))).1

run_close : (close sample 5 connected).0 ≡ return tt
unfolding close connect Channel0.on_frame Channel0.start Events.create_event_objects Events.set
    Events.is_set Events.clear set_state Stateful.set_state raise_next happen on_channel0 io_stop
    set_event check_for_exceptions can_write Channel.set_state Channel.write_frame
run_close = refl

close_lem_example :
    let r = (close sample 5 connected).1 in
    (r.state ≡ Stateful.closed_state)
    × (holds connected.events Events.socket_closed ≡ false → r.io_alive ≡ false)
    × (close sample 5 r ≡ (raise connection_closed, r))
close_lem_example = close_lem sample 5 connected run_close

-- A connection that runs, as it was not made by a run.
abbrev started : Channel0
started = create_channel0 (fresh [])

abbrev opened : Channel0
opened = record started { channel = record started.channel { state = Stateful.open_state } }

abbrev at_work : Connection
at_work =
    record (fresh
      (close_ok (0, 9) none close_nothing ∷ idle ∷ record idle { io_alive = false } ∷ [])) {
        state = Stateful.open_state;
        events = running_events;
        channel0 = some opened;
      }

close-answered_example :
    let r = close sample 5 at_work in
    (r.0 ≡ return tt)
    × (r.1.state ≡ Stateful.closed_state)
    × (r.1.io_alive ≡ false)
    × (r.1.write_queue
        ≡ at_work.write_queue
          ++ (opened.channel.channel_id, Frame.bare FrameClass.connection_close) ∷ [])
unfolding live
close-answered_example =
    close-answered sample 5 (0, 9) none close_nothing at_work opened
      (record {
        exceptions = refl;
        state = refl;
        events = refl;
        channel0 = refl;
        open_state = refl;
        channels = refl;
        io_alive = refl;
        waits = refl;
      })
      refl
