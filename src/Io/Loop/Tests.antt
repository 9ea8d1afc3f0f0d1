-- ===== src/Io/Loop/Tests.antt =====
-- Runs of the IO loop (rabbitpy/io.py): a frame is one byte, and the reader keeps what it is given.
use rabbitpy.Prelude.{ℕ, ◌≡◌, refl, true, false, List, [], ◌∷◌, ◌++◌, none, some}
use rabbitpy.Exceptions.{connection_reset}
use rabbitpy.Action.{Action, return}
use rabbitpy.Stateful
use rabbitpy.Events
use rabbitpy.Io.Loop.{Loop, Turn, Recv, Send, accepted, failed, timed_out, run}
use rabbitpy.Io.Loop.Stream.{pending, OnWire}
use rabbitpy.Io.Loop.Wire.{run-OnWire}

abbrev marshal : ℕ → ℕ → List ℕ
marshal frame channel_id = channel_id ∷ frame ∷ []

abbrev keep : List ℕ → Action (List ℕ) Unit
keep bytes s = (return tt, s ++ bytes)

abbrev idle : Loop ℕ (List ℕ)
idle = record {
  running = false;
  write_buffer = [];
  write_queue = (0, 5) ∷ (1, 6) ∷ [];
  events = Events.create_event_objects;
  exceptions = [];
  bytes_written = 0;
  sent = [];
  channel0 = some Stateful.open_state;
  reader = [];
}

abbrev sends : Send → Turn
sends s = record {
  has_errors = false;
  trigger_readable = true;
  trigger = none;
  readable = false;
  recv = Recv.timed_out;
  writable = true;
  send = λ _. s;
}

-- A short send, a busy socket and a broken one: the rest of the first frame is lost with the
-- socket.
abbrev turns : List Turn
turns = sends (accepted 1) ∷ sends timed_out ∷ sends (accepted 1) ∷ sends (failed 32) ∷ []

run_short_sends : (run marshal keep turns idle).1.sent ≡ 0 ∷ 5 ∷ []
unfolding run Events.is_set Events.create_event_objects Events.set
run_short_sends = refl

run_reset : (run marshal keep turns idle).1.exceptions ≡ connection_reset ∷ []
unfolding run Events.is_set Events.create_event_objects Events.set
run_reset = refl

run-OnWire_example :
    OnWire marshal (idle.sent ++ pending marshal idle) (run marshal keep turns idle).1
run-OnWire_example = run-OnWire marshal keep turns idle
