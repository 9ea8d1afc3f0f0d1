-- ===== src/Connection/Sample.antt =====
-- A connection and what happens beside it, for the tests.
use rabbitpy.Prelude.{true, false, none, List, [], ◌∷◌}
use rabbitpy.Action.{Action, return, ◌>>◌}
use rabbitpy.Stateful
use rabbitpy.Events
use rabbitpy.Frame.{Frame, FrameClass}
use rabbitpy.Channel0.{Channel0, on_frame}
use rabbitpy.Connection.State.{Connection, Happening}

abbrev pub close_nothing : Action Channel0 Unit
close_nothing s = (return tt, s)

abbrev pub nothing : Happening
nothing = record {
  events = [];
  exceptions = [];
  state = none;
  io_alive = true;
  on_channel0 = λ c. c;
}

-- The IO thread has opened the socket.
abbrev pub opens : Happening
opens = record nothing { events = Events.socket_opened ∷ [] }

-- The IO thread gives the server's Start, Tune and OpenOk to channel 0.
abbrev serve : Action Channel0 Unit
serve =
    on_frame (0, 9) none close_nothing (Frame.start 0 9 [])
    >> on_frame (0, 9) none close_nothing (Frame.tune FrameClass.connection_tune 2047 131072 60)
    >> on_frame (0, 9) none close_nothing (Frame.bare FrameClass.connection_open_ok)

abbrev pub serves : Happening
serves = record nothing { on_channel0 = λ c. (serve c).1 }

-- The IO thread gives the server's CloseOk to channel 0.
abbrev pub answers : Happening
answers = record nothing {
  on_channel0 =
      λ c. (on_frame (0, 9) none close_nothing (Frame.bare FrameClass.connection_close_ok) c).1;
}

-- The IO thread ends.
abbrev pub ends : Happening
ends = record nothing { io_alive = false }

abbrev pub fresh : List Happening → Connection
fresh schedule = record {
  args = record { username = "guest"; password = "guest"; virtual_host = "/"; locale = none };
  channel_max = 65535;
  frame_max = 131072;
  heartbeat = 60;
  state = Stateful.closed_state;
  events = Events.create_event_objects;
  exceptions = [];
  write_queue = [];
  wakeups = 0;
  channel0 = none;
  channels = [];
  timer = none;
  io_alive = true;
  max_frame_size = none;
  schedule = schedule;
}
