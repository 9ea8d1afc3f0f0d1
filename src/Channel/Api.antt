-- ===== src/Channel/Api.antt =====
-- rabbitpy/channel.py, the methods of a channel that its users and the classes of the package call,
-- and AMQPChannel.close of rabbitpy/base.py. The code's behaviour under Python 3 is modelled.
pub mod Lifecycle
pub mod Commands
pub mod Closing
mod Tests
use rabbitpy.Prelude.{
  ℕ, ◌+◌, ◌==◌, ltb, if◌then◌else◌, Bool, true, false, not, ◌&&◌, ◌||◌, String, Option, none, some,
  List, [], ◌∷◌, ◌++◌, length, is_empty, lookup, insert, str_eq,
}
use rabbitpy.Exceptions.{Exception, channel_closed, not_supported, runtime_error}
use rabbitpy.Action.{Action, Outcome, return, raise, pure, throw, gets, modify, when, ◌>>=◌, ◌>>◌}
use rabbitpy.Stateful
use rabbitpy.Stateful.{is_closed, is_closing}
use rabbitpy.Frame
use rabbitpy.Frame.{Frame, FrameClass, Pamqp, one, any_of, by_class, class_of}
use rabbitpy.Channel.{
  Channel, Registration, set_state, check_for_exceptions, check_for_rpc_request, write_frame,
}
use rabbitpy.Channel.Wait.{wait_rounds, wait_on_frame, rpc, on_ready_to_cancel, read_from_queue}
use rabbitpy.Channel.Content.{Received, wait_for_content_frames, consume_message}

-- `self._server_capabilities.get(name, False)`
supports : String → Channel → Bool
supports name s = elim (lookup name s.capabilities) [ none ↦ false | some flag ↦ flag ]

module _ (pamqp : Pamqp) (rounds : ℕ) where
  -- A command whose answer is not looked at.
  command : Frame → Action Channel Unit
  command frame_value = rpc pamqp rounds frame_value >> pure tt

  -- `ChannelWriter._rpc`
  unfoldable pub channel_rpc : Frame → Action Channel (Option Frame)
  channel_rpc frame_value s =
      if is_closed s.state then (raise channel_closed, s) else rpc pamqp rounds frame_value s

  -- `_check_for_pending_frames`
  after_pending : Option Frame → Action Channel Unit
  after_pending none = pure tt
  after_pending (some value) = if pamqp.truthy value then check_for_rpc_request value else pure tt

  check_for_pending_frames : Action Channel Unit
  unfolding after_pending
  check_for_pending_frames = read_from_queue >>= after_pending

  close_frame : Frame
  close_frame = Frame.close FrameClass.channel_close 200 "Normal Shutdown"

  -- AMQPChannel.close
  pub base_close : Action Channel Unit
  unfolding check_for_pending_frames command close_frame
  base_close s =
      if is_closed s.connection_state
      then (return tt, s)
      else if is_closed s.state
      then (return tt, s)
      else (check_for_pending_frames
            >> (λ s. when (not (is_closing s.state)) (set_state Stateful.closing_state) s)
            >> command close_frame
            >> set_state Stateful.closed_state)
          s

  -- `_interrupt_wait_on_frame`, with the callback `_on_ready_to_cancel`
  pub interrupt_wait_on_frame : String → Bool → Action Channel Unit
  interrupt_wait_on_frame consumer_tag nowait = check_for_exceptions >> λ s.
      if not s.waiting
      then on_ready_to_cancel pamqp (wait_rounds pamqp rounds) consumer_tag nowait s
      else (return tt, record s { interrupt = some (consumer_tag, nowait) })

  -- `_cancel_consumer`, where the tag is the given one, or the object's own
  unfoldable pub cancel_consumer : String → (nowait : Bool) → Action Channel Unit
  unfolding interrupt_wait_on_frame
  cancel_consumer consumer_tag nowait = interrupt_wait_on_frame consumer_tag nowait

  add_tag : String → (no_ack : Bool) → List String → List String
  add_tag tag true ack_tags = ack_tags
  add_tag tag false ack_tags = ack_tags ++ tag ∷ []

  -- The loop over `self._consumers.values()`, which had `size` entries when it began: the iterator
  -- raises a RuntimeError once the dictionary has another number of them.
  close_consumers :
      (size : ℕ) → List (String × Registration) → List String → Action Channel (List String)
  unfolding add_tag
  close_consumers size [] ack_tags s =
      if length s.consumers == size then (return ack_tags, s) else (raise runtime_error, s)
  close_consumers size ((tag, r) ∷ rest) ack_tags s =
      if length s.consumers == size
      then (cancel_consumer r.own_tag false
            >> close_consumers size rest (add_tag r.own_tag r.no_ack ack_tags))
          s
      else (raise runtime_error, s)

  contains : String → List String → Bool
  contains tag [] = false
  contains tag (t ∷ ts) = str_eq t tag || contains tag ts

  -- The larger of a tag and that of a delivery to one of the consumers.
  higher : List String → ℕ → Frame → ℕ
  higher ack_tags delivery_tag (Frame.deliver consumer_tag tag) =
      if contains consumer_tag ack_tags && ltb delivery_tag tag then tag else delivery_tag
  higher ack_tags delivery_tag frame_value = delivery_tag

  -- The loop that empties the read queue, up to a frame that counts as false: the highest delivery
  -- tag, and what is left of the queue.
  pub discard : List String → ℕ → List Frame → ℕ × List Frame
  unfolding higher contains
  discard ack_tags delivery_tag [] = (delivery_tag, [])
  discard ack_tags delivery_tag (frame_value ∷ rest) =
      let later = discard ack_tags (higher ack_tags delivery_tag frame_value) rest in
      if pamqp.truthy frame_value then later else (delivery_tag, rest)

  multi_nack : (delivery_tag : ℕ) → (requeue : Bool) → Action Channel Unit
  unfolding supports command
  multi_nack delivery_tag requeue s =
      if supports "basic.nack" s
      then command (Frame.nack delivery_tag true requeue) s
      else (raise (not_supported "Basic.Nack"), s)

  -- If there are any ack tags, the last message is nacked, with all before it.
  nack_discarded : List String → Action Channel Unit
  unfolding discard multi_nack
  nack_discarded [] s = (return tt, s)
  nack_discarded (tag ∷ tags) s =
      let (delivery_tag, rest) = discard (tag ∷ tags) 0 s.read_queue in
      when (not (delivery_tag == 0)) (multi_nack delivery_tag true) (record s { read_queue = rest })

  begin_close : Action Channel Unit
  begin_close s =
      when (not (is_closed s.connection_state) && not (is_closed s.state))
        (set_state Stateful.closing_state) s

  close_all_consumers : Action Channel Unit
  unfolding close_consumers nack_discarded
  close_all_consumers s =
      when (not (is_empty s.consumers))
        (close_consumers (length s.consumers) s.consumers [] >>= nack_discarded) s

  unfoldable pub close : Action Channel Unit
  unfolding begin_close close_all_consumers base_close
  close = begin_close >> close_all_consumers >> base_close

  -- `__exit__`: `self.open` is the method of that name, which counts as true.
  unfoldable pub exit : Option Exception → Action Channel Unit
  unfolding close
  exit (some exc_val) = set_state Stateful.closed_state >> throw exc_val
  exit none = close

  -- `open`
  unfoldable pub open_channel : Action Channel Unit
  open_channel =
      set_state Stateful.opening_state
      >> write_frame (Frame.bare FrameClass.channel_open)
      >> wait_on_frame pamqp rounds (one (by_class FrameClass.channel_open_ok))
      >> set_state Stateful.open_state

  unfoldable pub enable_publisher_confirms : Action Channel Unit
  unfolding supports command
  enable_publisher_confirms s =
      if supports "publisher_confirms" s
      then (command (Frame.bare FrameClass.confirm_select)
            >> modify (λ s. record s { publisher_confirms = true }))
          s
      else (raise (not_supported "Confirm.Select"), s)

  unfoldable pub prefetch_count : ℕ → (all_channels : Bool) → Action Channel Unit
  unfolding command
  prefetch_count value all_channels = command (Frame.qos 0 value all_channels)

  unfoldable pub prefetch_size : Option ℕ → (all_channels : Bool) → Action Channel Unit
  unfolding command
  prefetch_size none all_channels = pure tt
  prefetch_size (some value) all_channels = command (Frame.qos value 0 all_channels)

  unfoldable pub recover : (requeue : Bool) → Action Channel Unit
  unfolding command
  recover requeue = command (Frame.recover requeue)

  -- The two steps of `_consume` behind its checks.
  register :
      (owner : ℕ) (queue consumer_tag : String) (no_ack : Bool) → Option ℕ → Action Channel Unit
  unfolding command
  register owner queue consumer_tag no_ack priority =
      command (Frame.consume queue consumer_tag no_ack priority)
      >> modify λ s. record s {
        consumers =
            insert consumer_tag (record { owner = owner; own_tag = consumer_tag; no_ack = no_ack })
              s.consumers;
      }

  -- `_consume` of the object with the id `owner`, where the priority is an int by its type
  unfoldable pub consume :
      (owner : ℕ) (queue consumer_tag : String) (no_ack : Bool) → Option ℕ → Action Channel Unit
  unfolding supports register
  consume owner queue consumer_tag no_ack none s = register owner queue consumer_tag no_ack none s
  consume owner queue consumer_tag no_ack (some priority) s =
      if supports "consumer_priorities" s
      then register owner queue consumer_tag no_ack (some priority) s
      else (raise (not_supported "consumer_priorities"), s)
