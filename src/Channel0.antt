-- ===== src/Channel0.antt =====
-- rabbitpy/channel0.py: the channel over which the connection is negotiated and closed.
--
-- Connection.close, which a remote close calls, is the parameter `close_connection`; the version of
-- the protocol is pamqp's and is the parameter `version`. pamqp gives each class its own name, so
-- that the tests on a name are tests on the class. The client's properties are not read by the code
-- and are left out.
pub mod Negotiate
pub mod Agreed
pub mod Handshake
pub mod Blocked
mod Tests
use rabbitpy.Prelude.{
  ℕ, ◌+◌, ◌==◌, if◌then◌else◌, Bool, true, false, ◌&&◌, ◌||◌, String, Option, none, some, List,
  ◌++◌, [], ◌∷◌, min, str_append, str_eq,
}
use rabbitpy.Exceptions.{
  Exception, amqp, remote_closed, connection_reset, amqp_unexpected_frame, amqp_exception,
}
use rabbitpy.Action.{Action, Outcome, return, raise, pure, throw, gets, modify, when, ◌>>=◌, ◌>>◌}
use rabbitpy.Stateful
use rabbitpy.Stateful.{is_open}
use rabbitpy.Events
use rabbitpy.Events.{Events}
use rabbitpy.Frame
use rabbitpy.Frame.{Frame, FrameClass, Value}
use rabbitpy.Channel
use rabbitpy.Channel.{Channel, write_frame, trigger_write}

-- The connection's arguments that the negotiation reads.
pub record Args : Type 0 where
  pub username : String
  pub password : String
  pub virtual_host : String
  pub locale : Option String

-- `channel` is what the class inherits from AMQPChannel.
pub record Channel0 : Type 0 where
  pub channel : Channel
  pub args : Args
  pub events : Events
  pub max_channels : ℕ
  pub max_frame_size : ℕ
  pub heartbeat_interval : Option ℕ
  pub properties : Option (List (String × Value))

on_channel : Action Channel Unit → Action Channel0 Unit
on_channel m s = ((m s.channel).0, record s { channel = (m s.channel).1 })

set_state : ℕ → Action Channel0 Unit
unfolding on_channel
set_state value = on_channel (Channel.set_state value)

set_event : ℕ → Action Channel0 Unit
set_event event_id s = (return tt, record s { events = (Events.set s.events event_id).1 })

clear_event : ℕ → Action Channel0 Unit
clear_event event_id s = (return tt, record s { events = (Events.clear s.events event_id).1 })

write : Frame → Action Channel0 Unit
unfolding on_channel
write value = on_channel (write_frame value)

-- `min(client_value, server_value) or (client_value or server_value)`: `x or y` is `y` if `x` is 0.
unfoldable pub negotiate : (client_value server_value : ℕ) → ℕ
negotiate client_value server_value =
    if min client_value server_value == 0
    then (if client_value == 0 then server_value else client_value)
    else min client_value server_value

-- None and the empty text count as false. `system` is the first part of Python's default locale,
-- DEFAULT_LOCALE.
unfoldable pub or_text : Option String → String → String
or_text none rest = rest
or_text (some l) rest = if str_eq l "" then rest else l

pub get_locale : (system : Option String) → Args → String
unfolding or_text
get_locale system args = or_text args.locale (or_text system "en-US")

-- `'\0%s\0%s' % (username, password)`
pub credentials : Args → String
credentials args = str_append "\0" (str_append args.username (str_append "\0" args.password))

unfoldable pub negotiate_heartbeat : Option ℕ → ℕ → Option ℕ
negotiate_heartbeat none heartbeat = some heartbeat
negotiate_heartbeat (some interval) heartbeat =
    if (interval == 0) || (heartbeat == 0) then some 0 else some interval

-- The heartbeat interval of a TuneOk frame; it is a number once it is negotiated.
interval_of : Option ℕ → ℕ
interval_of none = 0
interval_of (some interval) = interval

pub build_tune_ok_frame : Channel0 → Frame
unfolding interval_of
build_tune_ok_frame s =
    Frame.tune FrameClass.connection_tune_ok s.max_channels s.max_frame_size
      (interval_of s.heartbeat_interval)

build_open_frame : Channel0 → Frame
build_open_frame s = Frame.open_connection s.args.virtual_host

unfoldable pub on_connection_open_ok : Action Channel0 Unit
unfolding set_state set_event
on_connection_open_ok = set_state Stateful.open_state >> set_event Events.channel0_opened

tuned : (channel_max frame_max heartbeat : ℕ) → Channel0 → Channel0
unfolding negotiate negotiate_heartbeat
tuned channel_max frame_max heartbeat s = record s {
  max_frame_size = negotiate s.max_frame_size frame_max;
  max_channels = negotiate s.max_channels channel_max;
  heartbeat_interval = negotiate_heartbeat s.heartbeat_interval heartbeat;
}

unfoldable pub on_connection_tune : (channel_max frame_max heartbeat : ℕ) → Action Channel0 Unit
unfolding tuned write build_tune_ok_frame build_open_frame
on_connection_tune channel_max frame_max heartbeat =
    modify (tuned channel_max frame_max heartbeat)
    >> (gets build_tune_ok_frame >>= write)
    >> (gets build_open_frame >>= write)

unfoldable pub start : Action Channel0 Unit
unfolding set_state write
start = set_state Stateful.opening_state >> write (Frame.bare FrameClass.protocol_header)

-- `exceptions.AMQP[value.reply_code]`, or a RemoteClosedException
close_error : ℕ → String → Exception
unfolding amqp_exception
close_error reply_code reply_text = elim (amqp_exception reply_code) [
  | none ↦ remote_closed reply_code reply_text
  | some e ↦ amqp e
]

put_exception : Exception → Action Channel0 Unit
put_exception e s = (
  return tt,
  record s { channel = record s.channel { exceptions = s.channel.exceptions ++ e ∷ [] } },
)

build_start_ok_frame : (system : Option String) → Args → Frame
unfolding credentials get_locale
build_start_ok_frame system args = Frame.start_ok (credentials args) (get_locale system args)

module _ (version : ℕ × ℕ) (system : Option String) (close_connection : Action Channel0 Unit) where
  validate_connection_start : (version_major version_minor : ℕ) → Bool
  validate_connection_start version_major version_minor =
      (version_major == version.0) && (version_minor == version.1)

  unfoldable pub on_connection_start :
      (version_major version_minor : ℕ) → List (String × Value) → Action Channel0 Unit
  unfolding validate_connection_start build_start_ok_frame write
  on_connection_start version_major version_minor server_properties s =
      if validate_connection_start version_major version_minor
      then (modify (λ s. record s { properties = some server_properties })
            >> (gets (λ s. build_start_ok_frame system s.args) >>= write))
          s
      else (raise connection_reset, s)

  unfoldable pub on_connection_close : ℕ → String → Action Channel0 Unit
  unfolding set_state set_event put_exception close_error on_channel
  on_connection_close reply_code reply_text =
      set_state Stateful.closed_state
      >> set_event Events.socket_closed
      >> set_event Events.channel0_closed
      >> close_connection
      >> put_exception (close_error reply_code reply_text)
      >> on_channel trigger_write

  unfoldable pub on_frame : Frame → Action Channel0 Unit
  unfolding on_connection_close on_connection_open_ok on_connection_start on_connection_tune
      set_event clear_event set_state
  on_frame (Frame.close FrameClass.connection_close reply_code reply_text) =
      on_connection_close reply_code reply_text
  on_frame (Frame.blocked_by reason) = set_event Events.connection_blocked
  on_frame (Frame.bare FrameClass.connection_close_ok) =
      set_state Stateful.closed_state >> set_event Events.channel0_closed
  on_frame (Frame.bare FrameClass.connection_open_ok) = on_connection_open_ok
  on_frame (Frame.start version_major version_minor server_properties) =
      on_connection_start version_major version_minor server_properties
  on_frame (Frame.tune FrameClass.connection_tune channel_max frame_max heartbeat) =
      on_connection_tune channel_max frame_max heartbeat
  on_frame (Frame.bare FrameClass.connection_unblocked) = clear_event Events.connection_blocked
  on_frame (Frame.bare FrameClass.heartbeat) = pure tt
  on_frame value = throw (amqp_unexpected_frame "Unexpected Channel0 Frame")
