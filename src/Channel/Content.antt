-- ===== src/Channel/Content.antt =====
-- rabbitpy/channel.py: how a message is put together from its method frame, its header and its body
-- frames, for a consumer and for Basic.Get. The body loop takes fuel, `parts`, a bound on the body
-- frames; with frames that are not empty, as many as the body has bytes are enough. The code's
-- branch for Python 3 is modelled.
pub mod Whole
pub mod Sample
mod Tests
use rabbitpy.Prelude.{
  ℕ, zero, suc, ◌+◌, ltb, if◌then◌else◌, Bool, true, false, not, ◌&&◌, ◌||◌, String, Option, none,
  some, List, [], ◌∷◌, ◌++◌, length, is_empty,
}
use rabbitpy.Exceptions.{not_consuming, attribute_error}
use rabbitpy.Action.{Action, Outcome, return, raise, no_fuel, pure, throw, gets, ◌>>=◌, ◌>>◌}
use rabbitpy.Stateful.{is_closed, is_closing}
use rabbitpy.Frame
use rabbitpy.Frame.{
  Frame, FrameClass, Pamqp, PropertyValue, Expected, one, any_of, by_name, by_class,
}
use rabbitpy.Channel.{Channel, check_for_rpc_request}
use rabbitpy.Channel.Wait.{wait_on_frame, wait_rounds, rpc, on_interrupt_set}

-- A received message: `msg.method`, and what `message.Message` is made from.
pub record Received : Type 0 where
  pub method : Frame
  pub properties : List (String × PropertyValue)
  pub body : List ℕ

pub is_deliver : Frame → Bool
is_deliver (Frame.deliver tag n) = true
is_deliver f = false

delivery_tag_of : Frame → ℕ
delivery_tag_of (Frame.deliver consumer_tag delivery_tag) = delivery_tag
delivery_tag_of (Frame.get_ok delivery_tag) = delivery_tag
delivery_tag_of f = 0

-- `header_value.body_size`, `header_value.properties.to_dict()` and `body_part.value`; a wait for
-- these frames returns no others.
body_size : Frame → ℕ
body_size (Frame.header size properties) = size
body_size f = 0

properties_of : Frame → List (String × PropertyValue)
properties_of (Frame.header size properties) = properties
properties_of f = []

value_of : Frame → List ℕ
value_of (Frame.body value) = value
value_of f = []

create_message : Frame → Frame → List ℕ → Received
unfolding properties_of
create_message method_frame header_frame body = record {
  method = method_frame;
  properties = properties_of header_frame;
  body = body;
}

-- `_check_for_rpc_request(value)`, where None is no request.
check_value : Option Frame → Action Channel Unit
check_value none = pure tt
check_value (some value) = check_for_rpc_request value

pub is_done : Channel → Bool
is_done s = is_closing s.state || is_closed s.state

module _ (pamqp : Pamqp) (rounds : ℕ) where
  pub wait_for : String → Action Channel (Option Frame)
  wait_for name = wait_on_frame pamqp rounds (one (by_name name))

  -- A frame that counts as true, or None.
  real : Option Frame → Option Frame
  real none = none
  real (some f) = if pamqp.truthy f then some f else none

  reject_inbound_message : Frame → Action Channel Unit
  unfolding delivery_tag_of
  reject_inbound_message method_frame =
      rpc pamqp rounds (Frame.reject (delivery_tag_of method_frame) true) >> pure tt

  module _ (method_frame header_value : Frame) where
    -- What follows the read of a body frame; `continue` is the loop from the next frame on. None is
    -- the result of an error.
    after_part :
        (body_value : List ℕ) (continue : List ℕ → Action Channel (Option Received))
        → Option Frame
        → Action Channel (Option Received)
    unfolding real create_message reject_inbound_message value_of is_done
    after_part body_value continue body_part s = elim s.interrupt [
      | some args ↦ (on_interrupt_set pamqp (wait_rounds pamqp rounds) args >> pure none) s
      | none ↦ elim (real body_part) [
        | none ↦ (return (some (create_message method_frame header_value body_value)), s)
        | some part ↦
            if is_done s
            then (return none, s)
            else if is_deliver method_frame && is_empty s.consumers
            then (reject_inbound_message method_frame >> pure none) s
            else continue (body_value ++ value_of part) s
      ]
    ]

    -- while body_length_received < body_total_size
    body_loop : (parts : ℕ) → (body_value : List ℕ) → Action Channel (Option Received)
    unfolding after_part check_value wait_for body_size
    body_loop zero body_value s = (no_fuel, s)
    body_loop (suc parts) body_value s =
        if ltb (length body_value) (body_size header_value)
        then (do
          body_part ← wait_for "ContentBody"
          check_value body_part
          after_part body_value (body_loop parts) body_part)
            s
        else (return (some (create_message method_frame header_value body_value)), s)

  after_header : (parts : ℕ) → Frame → Option Frame → Action Channel (Option Received)
  unfolding reject_inbound_message body_loop
  after_header parts method_frame none = reject_inbound_message method_frame >> pure none
  after_header parts method_frame (some header_value) = check_for_rpc_request header_value >> λ s.
      elim s.interrupt [
        | some args ↦ (on_interrupt_set pamqp (wait_rounds pamqp rounds) args >> pure none) s
        | none ↦ body_loop method_frame header_value parts [] s
      ]

  unfoldable pub wait_for_content_frames : (parts : ℕ) → Frame → Action Channel (Option Received)
  unfolding is_done after_header real wait_for body_loop
  wait_for_content_frames parts method_frame s =
      if is_done s
      then (return none, s)
      else if is_deliver method_frame && is_empty s.consumers
      then (return none, s)
      else (do
        header_value ← wait_for "ContentHeader"
        after_header parts method_frame (real header_value))
          s

  after_deliver : (parts : ℕ) → Option Frame → Action Channel (Option Received)
  unfolding real
  after_deliver parts none = pure none
  after_deliver parts (some frame_value) = wait_for_content_frames parts frame_value

  unfoldable pub consume_message : (parts : ℕ) → Action Channel (Option Received)
  unfolding after_deliver real
  consume_message parts s =
      if is_empty s.consumers
      then (raise not_consuming, s)
      else (do
        frame_value ← wait_on_frame pamqp rounds (any_of (by_class FrameClass.basic_deliver ∷ []))
        after_deliver parts (real frame_value))
          s

  -- `_wait_for_content_frames` of None, which no message comes from.
  rejecting_nothing : (parts : ℕ) → Option Frame → Action Channel (Option Received)
  unfolding after_header
  rejecting_nothing parts none = throw attribute_error
  rejecting_nothing parts (some header_value) =
      after_header parts (Frame.get_ok 0) (some header_value) >> pure none

  wait_without_method : (parts : ℕ) → Action Channel (Option Received)
  unfolding rejecting_nothing wait_for real is_done
  wait_without_method parts s =
      if is_done s
      then (return none, s)
      else (do header_value ← wait_for "ContentHeader"; rejecting_nothing parts (real header_value))
          s

  after_get : (parts : ℕ) → Option Frame → Action Channel (Option Received)
  unfolding wait_without_method
  after_get parts none = wait_without_method parts
  after_get parts (some (Frame.bare FrameClass.basic_get_empty)) = pure none
  after_get parts (some frame_value) = wait_for_content_frames parts frame_value

  unfoldable pub get_message : (parts : ℕ) → Action Channel (Option Received)
  unfolding after_get
  get_message parts = do
    frame_value ←
        wait_on_frame pamqp rounds
          (any_of (by_class FrameClass.basic_get_ok ∷ by_class FrameClass.basic_get_empty ∷ []))
    after_get parts frame_value
