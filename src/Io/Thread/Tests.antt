-- ===== src/Io/Thread/Tests.antt =====
-- Runs of the IO thread (rabbitpy/io.py).
use rabbitpy.Prelude.{ℕ, ◌==◌, ◌≡◌, refl, true, false, none, some, [], ◌∷◌, ◌++◌}
use rabbitpy.Exceptions.{type_error}
use rabbitpy.Action.{return, pure}
use rabbitpy.Events
use rabbitpy.Events.{create_event_objects}
use rabbitpy.Frame.{text, int}
use rabbitpy.Queue.{number, word}
use rabbitpy.Connection.Url.{Args, pos}
use rabbitpy.Io.Thread.{
  Io, Address, socket_error, raised, got, attempt, ssl_kwargs, connect, run, stop,
}
use rabbitpy.Io.Thread.Connects.{connected, unconnected, connect-first, run-unconnected}
use rabbitpy.Io.Thread.Stops.{stopped, stop_lem}

abbrev args : Args
args = record {
  host = some "localhost";
  port = 5672;
  virtual_host = "/";
  username = "guest";
  password = "guest";
  timeout = pos 3;
  heartbeat = pos 60;
  frame_max = pos 131072;
  channel_max = pos 65535;
  locale = none;
  ssl = false;
  cacertfile = some "ca.pem";
  certfile = some "";
  keyfile = none;
  verify = some 0;
  ssl_version = some 2;
}

abbrev thread : Io ℕ (Unit {0})
thread = record {
  args = args;
  loop = record {
    running = false;
    write_buffer = [];
    write_queue = [];
    events = create_event_objects;
    exceptions = [];
    bytes_written = 0;
    sent = [];
    channel0 = none;
    reader = tt;
  };
  state = none;
  socket = none;
  write_listener = 3;
  write_trigger = 4;
  remote_name = none;
  closed = [];
}

-- Without a socket, out of reach, and in reach; TLS options are a TypeError.
abbrev without : Address
without = record {
  socket = socket_error;
  wrap = λ kwargs fd. raised type_error;
  connects = λ fd. true;
}

abbrev unreachable : Address
unreachable = record {
  socket = got 7;
  wrap = λ kwargs fd. raised type_error;
  connects = λ fd. false;
}

abbrev reachable : Address
reachable = record { socket = got 8; wrap = λ kwargs fd. raised type_error; connects = λ fd. true }

-- Falsy options are left out.
kwargs : ssl_kwargs args ≡ ("ssl_version", int 2) ∷ ("ca_certs", text "ca.pem") ∷ []
unfolding ssl_kwargs number word
kwargs = refl

wrapped : attempt (record args { ssl = true }) reachable ≡ raised type_error
unfolding attempt
wrapped = refl

connect-first_example :
    connect ((without ∷ unreachable ∷ []) ++ reachable ∷ without ∷ []) thread
    ≡ (return tt, connected 8 thread)
unfolding attempt
connect-first_example =
    connect-first thread (without ∷ unreachable ∷ []) (without ∷ []) reachable 8 (refl, (refl, tt))
      refl

run-unconnected_example :
    run (λ f n. []) (λ bytes. pure tt) (without ∷ unreachable ∷ []) (return "") [] thread
    ≡ (return tt, unconnected thread)
unfolding attempt
run-unconnected_example =
    run-unconnected (λ f n. []) (λ bytes. pure tt) thread (without ∷ unreachable ∷ []) (return "")
      [] refl (refl, (refl, tt))

-- The socket 8 was reset by the peer.
stop_lem_example :
    stop (λ fd. fd == 8) (connected 8 thread)
    ≡ (return tt, stopped (λ fd. fd == 8) (connected 8 thread))
stop_lem_example = stop_lem (λ fd. fd == 8) (connected 8 thread)

stop_closes : (stop (λ fd. fd == 8) (connected 8 thread)).1.closed ≡ 3 ∷ 4 ∷ []
unfolding stop Events.is_set Events.clear Events.set create_event_objects
stop_closes = refl
