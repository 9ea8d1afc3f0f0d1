-- ===== src/Message/Publish.antt =====
-- rabbitpy/message.py, `Message.publish`, and the answers to a received message: `ack`, `nack` and
-- `reject`.
pub mod Frames
mod Tests
use rabbitpy.Prelude.{
  ℕ, ◌==◌, if◌then◌else◌, Bool, true, false, String, Option, none, some, List, [], ◌∷◌, ◌++◌, map,
  length,
}
use rabbitpy.Exceptions.{action_exception, zero_division, type_error, unexpected_response}
use rabbitpy.Action.{
  Action, Outcome, return, raise, blocked, no_fuel, and_then, pure, throw, gets, ◌>>=◌, ◌>>◌,
}
use rabbitpy.Frame
use rabbitpy.Frame.{Frame, FrameClass, Pamqp, PropertyValue, bytes, class_of, any_of, by_class}
use rabbitpy.Channel.{Channel, write_frame, write_frames}
use rabbitpy.Channel.Wait.{wait_on_frame}
use rabbitpy.Message.Properties.{
  Convert, Properties, maybe_utf8_encode, coerce_properties, prune_invalid_properties,
}
use rabbitpy.Message.Body.{body_pieces}

-- `delivery_tag` is that of the method frame, which only a received message has.
pub record Message : Type 0 where
  pub delivery_tag : Option ℕ
  pub properties : Properties
  pub body : PropertyValue

-- A message with the channel that it acts on.
pub record Attached : Type 0 where
  pub message : Message
  pub channel : Channel

module _ {A : Type 0} where
  abbrev on_channel : Action Channel A → Action Attached A
  on_channel m s = ((m s.channel).0, record s { channel = (m s.channel).1 })

module _ (method : String) (frame : ℕ → Frame) where
  -- What `ack`, `nack` and `reject` share.
  answer : Action Attached Unit
  answer s = elim s.message.delivery_tag [
    | none ↦ (raise (action_exception method), s)
    | some delivery_tag ↦ on_channel (write_frame (frame delivery_tag)) s
  ]

unfoldable pub ack : (all_previous : Bool) → Action Attached Unit
unfolding answer
ack all_previous = answer "ack" (λ tag. Frame.ack tag all_previous)

unfoldable pub nack : (requeue all_previous : Bool) → Action Attached Unit
unfolding answer
nack requeue all_previous = answer "nack" (λ tag. Frame.nack tag all_previous requeue)

unfoldable pub reject : (requeue : Bool) → Action Attached Unit
unfolding answer
reject requeue = answer "reject" (λ tag. Frame.reject tag requeue)

-- `self._properties`: the properties are pruned and coerced in place.
build_properties : Convert → Action Attached Properties
build_properties convert s =
    let (r, properties) =
      coerce_properties convert (prune_invalid_properties convert s.message.properties) in
    let s' = record s { message = record s.message { properties = properties } } in
    and_then r (λ _. gets (λ s. s.message.properties)) s'

-- `len(payload)` of a payload that is bytes; any other is a TypeError.
payload_of : Convert → Action Attached (List ℕ)
payload_of convert s = elim (maybe_utf8_encode convert s.message.body) [
  | bytes payload ↦ (return payload, s)
  | _ ↦ (raise type_error, s)
]

-- The body frames; a maximum of 0 divides by zero.
body_frames : List ℕ → Action Attached (List Frame)
body_frames payload s =
    if s.channel.maximum_frame_size == 0
    then (raise zero_division, s)
    else (return (map Frame.body (body_pieces s.channel.maximum_frame_size payload)), s)

confirmation : Option FrameClass → Outcome (Option Bool)
confirmation (some FrameClass.basic_ack) = return (some true)
confirmation (some FrameClass.basic_nack) = return (some false)
confirmation _ = raise unexpected_response

-- `isinstance` of the response, by its class
class_of_response : Option Frame → Option FrameClass
class_of_response none = none
class_of_response (some response) = some (class_of response)

-- `wait_for_confirmation`
unfoldable pub wait_for_confirmation : Pamqp → (rounds : ℕ) → Action Channel (Option Frame)
wait_for_confirmation pamqp rounds =
    wait_on_frame pamqp rounds
      (any_of (by_class FrameClass.basic_ack ∷ by_class FrameClass.basic_nack ∷ []))

-- What follows the writing of the frames.
await_confirmation : Pamqp → (rounds : ℕ) → Action Attached (Option Bool)
unfolding wait_for_confirmation confirmation class_of_response
await_confirmation pamqp rounds s =
    if s.channel.publisher_confirms
    then (do
      response ← on_channel (wait_for_confirmation pamqp rounds)
      λ s. (confirmation (class_of_response response), s))
        s
    else (return none, s)

-- `routing_key or ''`
abbrev pub or_empty : Option String → String
or_empty none = ""
or_empty (some s) = s

unfoldable pub publish :
    Convert
    → Pamqp
    → (rounds : ℕ) → (exchange : String) (routing_key : Option String) (mandatory immediate : Bool)
    → Action Attached (Option Bool)
unfolding build_properties payload_of body_frames await_confirmation
publish convert pamqp rounds exchange routing_key mandatory immediate = do
  payload ← payload_of convert
  properties ← build_properties convert
  bodies ← body_frames payload
  on_channel (
      write_frames (
        Frame.publish exchange (or_empty routing_key) mandatory immediate
        ∷ Frame.header (length payload) properties
        ∷ bodies))
  await_confirmation pamqp rounds
