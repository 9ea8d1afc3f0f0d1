-- ===== src/Channel.antt =====
-- rabbitpy/base.py, AMQPChannel, and the methods of rabbitpy/channel.py that it calls: the state of
-- a channel and the operations that do not wait for an answer. Wait has the waiting, Api the
-- methods that are built on it.
--
-- A channel shares the write queue, the exception queue and the connection's state with the other
-- threads, so these are fields of its state. What the other threads do while the channel reads its
-- queue comes from `schedule`: one entry for each read.
pub mod Wait
pub mod Writes
pub mod Content
pub mod Api
pub mod Sample
mod Tests
use rabbitpy.Prelude.{
  ℕ, ◌+◌, ◌==◌, if◌then◌else◌, Bool, true, false, not, ◌&&◌, ◌||◌, String, Option, none, some, List,
  [], ◌∷◌, ◌++◌, map, lookup, delete,
}
use rabbitpy.Exceptions.{
  Exception, amqp, channel_closed, connection_closed, message_returned, remote_cancellation,
  remote_closed_channel, amqp_exception,
}
use rabbitpy.Action.{Action, Outcome, return, raise, pure, throw, gets, modify, when, ◌>>=◌, ◌>>◌}
use rabbitpy.Stateful
use rabbitpy.Stateful.{is_closed, is_closing}
use rabbitpy.Frame
use rabbitpy.Frame.{Frame, FrameClass, Pamqp}

-- The class of the object: it decides which overriding method is called.
pub data Kind : Type 0 where
  channel0 channel : Kind

-- What the other threads do during one read of the read queue: frames that arrive, frames that they
-- put on the write queue, exceptions that are put on the queue, a change of the connection's state,
-- and an interrupt that is requested.
pub record Tick : Type 0 where
  pub frames : List Frame
  pub written : List (ℕ × Frame)
  pub exceptions : List Exception
  pub connection_state : Option ℕ
  pub interrupt : Option (String × Bool)

-- A consumer: the object that was registered, known by its `id`, with what its `consumer_tag` is at
-- the time, and its no_ack flag.
pub record Registration : Type 0 where
  pub owner : ℕ
  pub own_tag : String
  pub no_ack : Bool

-- `consumers` has the consumers under the tags with which they were registered. `interrupt` holds
-- the arguments of the callback `_on_ready_to_cancel` while the interrupt event is set. `wakeups`
-- counts the bytes sent to the write trigger. `write_queue` has all frames that were ever put on the
-- shared queue; what the IO thread takes from it is Io/Loop's.
pub record Channel : Type 0 where
  pub kind : Kind
  pub channel_id : ℕ
  pub state : ℕ
  pub blocking_read : Bool
  pub waiting : Bool
  pub interrupt : Option (String × Bool)
  pub consumers : List (String × Registration)
  pub publisher_confirms : Bool
  pub capabilities : List (String × Bool)
  pub maximum_frame_size : ℕ
  pub connection_state : ℕ
  pub exceptions : List Exception
  pub read_queue : List Frame
  pub write_queue : List (ℕ × Frame)
  pub wakeups : ℕ
  pub schedule : List Tick

unfoldable pub set_state : ℕ → Action Channel Unit
unfolding Stateful.set_state
set_state value s =
    let (r, state') = Stateful.set_state value s.state in (r, record s { state = state' })

unfoldable pub check_for_exceptions : Action Channel Unit
check_for_exceptions s = elim s.exceptions [
  | [] ↦ (return tt, s)
  | e ∷ rest ↦ (raise e, record s { exceptions = rest })
]

-- The two tests of `_can_write` after the queued exceptions.
check_open : Action Channel Bool
check_open s =
    if is_closed s.connection_state
    then (raise connection_closed, s)
    else if is_closed s.state
    then (raise channel_closed, s)
    else (return true, s)

unfoldable pub can_write : Action Channel Bool
unfolding check_for_exceptions check_open
can_write = check_for_exceptions >> check_open

-- `utils.trigger_write`
unfoldable pub trigger_write : Action Channel Unit
trigger_write s = (return tt, record s { wakeups = s.wakeups + 1 })

pub put_frame : Frame → Channel → Channel
put_frame frame s = record s { write_queue = s.write_queue ++ (s.channel_id, frame) ∷ [] }

pub put_frames : List Frame → Channel → Channel
put_frames frames s = record s {
  write_queue = s.write_queue ++ map (λ frame. (s.channel_id, frame)) frames;
}

unfoldable pub write_frame : Frame → Action Channel Unit
unfolding can_write put_frame trigger_write
write_frame frame = do ready ← can_write; when ready (modify (put_frame frame) >> trigger_write)

unfoldable pub write_frames : List Frame → Action Channel Unit
unfolding can_write put_frames trigger_write
write_frames frames = do ready ← can_write; when ready (modify (put_frames frames) >> trigger_write)

unfoldable pub on_remote_close : ℕ → String → Action Channel Unit
unfolding set_state amqp_exception
on_remote_close reply_code reply_text = do
  set_state Stateful.remote_closed_state
  channel_id ← gets (λ s. s.channel_id)
  elim (amqp_exception reply_code) [
    | some e ↦ throw (amqp e)
    | none ↦ throw (remote_closed_channel channel_id reply_code reply_text)
  ]

-- `AMQPChannel._check_for_rpc_request`
unfoldable pub base_check_for_rpc_request : Frame → Action Channel Unit
unfolding on_remote_close
base_check_for_rpc_request (Frame.close FrameClass.channel_close reply_code reply_text) =
    on_remote_close reply_code reply_text
base_check_for_rpc_request value = pure tt

-- What `Channel._check_for_rpc_request` adds.
unfoldable pub channel_check_for_rpc_request : Frame → Action Channel Unit
channel_check_for_rpc_request (Frame.returned reply_code reply_text exchange routing_key) =
    throw (message_returned reply_code reply_text exchange routing_key)
channel_check_for_rpc_request (Frame.cancel consumer_tag nowait) = do
  modify (λ s. record s { waiting = false; consumers = delete consumer_tag s.consumers })
  throw (remote_cancellation consumer_tag)
channel_check_for_rpc_request value = pure tt

unfoldable pub check_for_rpc_request : Frame → Action Channel Unit
unfolding base_check_for_rpc_request channel_check_for_rpc_request
check_for_rpc_request value s = elim s.kind [
  | channel0 ↦ base_check_for_rpc_request value s
  | channel ↦ (base_check_for_rpc_request value >> channel_check_for_rpc_request value) s
]
