-- ===== src/Message/Create.antt =====
-- rabbitpy/message.py: the constructor of Message. `uuid` is the text of the new UUID, `now` the
-- current time; `dumps` is json.dumps of a dictionary or a list, which is known by a number. The
-- message has properties of its own; in the code they are the dictionary that was passed.
pub mod Wanted
pub mod Dated
pub mod Filled
mod Tests
use rabbitpy.Prelude.{
  ℕ, if◌then◌else◌, Bool, true, false, not, ◌&&◌, ◌||◌, String, Option, none, some, List, [], ◌∷◌,
  lookup, insert,
}
use rabbitpy.Exceptions.{deprecation_warning, key_error}
use rabbitpy.Action.{Outcome, return, raise}
use rabbitpy.Action.Results.{◌>>=◌}
use rabbitpy.Frame.{PropertyValue, str, bytes, datetime}
use rabbitpy.Message.Properties.{Convert, Properties, as_datetime, invalid_properties}
use rabbitpy.Message.Publish.{Message}

-- What a body is made of: a memoryview, a dictionary or a list, or any other value.
pub data BodyValue : Type 0 where
  memory_view : List ℕ → BodyValue
  structure : ℕ → BodyValue
  plain : PropertyValue → BodyValue

has : String → Properties → Bool
has key properties = elim (lookup key properties) [ none ↦ false | some _ ↦ true ]

module _ (convert : Convert) (dumps : ℕ → String) (uuid : String) (now : ℕ) where
  -- `_auto_serialize`, and the branch for a memoryview
  auto_serialize : BodyValue → Properties → Properties × PropertyValue
  auto_serialize (memory_view b) properties = (properties, bytes b)
  auto_serialize (structure s) properties =
      (insert "content_type" (str "application/json") properties, str (dumps s))
  auto_serialize (plain value) properties = (properties, value)

  -- `_add_auto_message_id` with its conditions
  add_message_id : (auto_id opinionated : Bool) → Properties → Outcome Properties
  unfolding has
  add_message_id auto_id opinionated properties =
      if (opinionated || auto_id) && not (has "message_id" properties)
      then if auto_id
        then raise deprecation_warning
        else return (insert "message_id" (str uuid) properties)
      else return properties

  pub add_timestamp : (opinionated : Bool) → Properties → Properties
  unfolding has
  add_timestamp opinionated properties =
      if opinionated && not (has "timestamp" properties)
      then insert "timestamp" (datetime now) properties
      else properties

  -- A timestamp becomes a datetime.
  pub enforce_datetime : Properties → Outcome Properties
  enforce_datetime properties = elim (lookup "timestamp" properties) [
    | none ↦ return properties
    | some value ↦ as_datetime convert value >>= λ d. return (insert "timestamp" d properties)
  ]

  refuse_invalid : List String → Properties → Outcome Properties
  refuse_invalid [] properties = return properties
  refuse_invalid (key ∷ keys) properties = raise (key_error key)

  -- `Message(channel, body_value, properties, auto_id, opinionated)`
  unfoldable pub create :
      BodyValue → Option Properties → (auto_id opinionated : Bool) → Outcome Message
  unfolding auto_serialize add_message_id add_timestamp enforce_datetime refuse_invalid
  create body_value properties auto_id opinionated =
      let given : Properties = elim properties [ none ↦ [] | some p ↦ p ] in
      let (serialized, body) = auto_serialize body_value given in
      add_message_id auto_id opinionated serialized
      >>= (λ identified. enforce_datetime (add_timestamp opinionated identified))
      >>= (λ dated. refuse_invalid (invalid_properties convert dated) dated)
      >>= λ valid. return (record { delivery_tag = none; properties = valid; body = body })
