-- ===== src/Channel0/Tests.antt =====
-- Runs of channel 0 (rabbitpy/channel0.py).
use rabbitpy.Prelude.{ℕ, ◌≡◌, ◌⊎◌, refl, true, false, none, some, List, [], ◌∷◌}
use rabbitpy.Exceptions.{connection_reset}
use rabbitpy.Action.{Action, return, raise}
use rabbitpy.Stateful
use rabbitpy.Events
use rabbitpy.Events.{is_set}
use rabbitpy.Frame.{Frame, FrameClass}
use rabbitpy.Channel.{channel0}
use rabbitpy.Channel0.{Channel0, negotiate, on_frame}
use rabbitpy.Channel0.Negotiate.{Obeys, negotiate_lem}
use rabbitpy.Channel0.Handshake.{CanStart, negotiation, Negotiated, negotiation-Negotiated}
use rabbitpy.Channel0.Blocked.{after_frames, after_frames-blocked}

abbrev fresh : Channel0
fresh = record {
  channel = record {
    kind = channel0;
    channel_id = 0;
    state = Stateful.closed_state;
    blocking_read = false;
    waiting = false;
    interrupt = none;
    consumers = [];
    publisher_confirms = false;
    capabilities = [];
    maximum_frame_size = 0;
    connection_state = Stateful.opening_state;
    exceptions = [];
    read_queue = [];
    write_queue = [];
    wakeups = 0;
    schedule = [];
  };
  args = record { username = "guest"; password = "guest"; virtual_host = "/"; locale = none };
  events = Events.create_event_objects;
  max_channels = 0;
  max_frame_size = 131072;
  heartbeat_interval = none;
  properties = none;
}

abbrev close_nothing : Action Channel0 Unit
close_nothing s = (return tt, s)

CanStart-fresh : CanStart fresh
CanStart-fresh = record { exceptions = refl; connected = refl }

negotiation-Negotiated_example :
    ((negotiation (0, 9) none close_nothing [] 2047 4096 60 fresh).0 ≡ return tt)
    × Negotiated none [] 2047 4096 60 fresh
        (negotiation (0, 9) none close_nothing [] 2047 4096 60 fresh).1
negotiation-Negotiated_example =
    negotiation-Negotiated (0, 9) none close_nothing [] 2047 4096 60 fresh CanStart-fresh

negotiate_lem_example :
    Obeys (negotiate 0 2047) 0
    × Obeys (negotiate 0 2047) 2047
    × ((negotiate 0 2047 ≡ 0) ⊎ (negotiate 0 2047 ≡ 2047))
    × ((n : ℕ) → Obeys n 0 → Obeys n 2047 → Obeys n (negotiate 0 2047))
negotiate_lem_example = negotiate_lem 0 2047

run_wrong_version :
    (on_frame (0, 9) none close_nothing (Frame.start 0 8 []) fresh).0 ≡ raise connection_reset
unfolding on_frame
run_wrong_version = refl

abbrev frames : List Frame
frames =
    Frame.blocked_by "low on memory"
    ∷ Frame.bare FrameClass.heartbeat
    ∷ Frame.deliver "tag" 1
    ∷ Frame.bare FrameClass.connection_unblocked
    ∷ Frame.blocked_by "low on disk"
    ∷ []

not_blocked : is_set fresh.events Events.connection_blocked ≡ some false
unfolding is_set Events.create_event_objects
not_blocked = refl

after_frames-blocked_example :
    is_set (after_frames (0, 9) none close_nothing frames fresh).events Events.connection_blocked
    ≡ some true
after_frames-blocked_example =
    after_frames-blocked (0, 9) none close_nothing frames fresh false
      (refl, (refl, (refl, (refl, (refl, tt))))) not_blocked
