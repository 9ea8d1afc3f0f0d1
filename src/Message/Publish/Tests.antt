-- ===== src/Message/Publish/Tests.antt =====
-- Published messages (rabbitpy/message.py) with a maximum frame size of four bytes.
use rabbitpy.Prelude.{
  ℕ, ◌≡◌, refl, String, none, some, true, false, List, [], ◌∷◌, arith, All, str_eq, if◌then◌else◌,
}
use rabbitpy.Action.{return}
use rabbitpy.Frame.{Frame, PropertyValue, bytes, str, integer}
use rabbitpy.Frame.Sample.{sample}
use rabbitpy.Channel.Sample.{open_channel}
use rabbitpy.Channel.Writes.{CanWrite, wrote}
use rabbitpy.Message.Properties.{
  ToInt, Convert, Properties, maybe_utf8_encode, coerce_properties, prune_invalid_properties,
  invalid_properties, delete_all,
}
use rabbitpy.Message.Body.{body_pieces, concat}
use rabbitpy.Message.Body.Pieces.{IsPiece}
use rabbitpy.Message.Publish.{Message, Attached, publish}
use rabbitpy.Message.Delivery.{Delivers, publish-Delivers}
use rabbitpy.Channel.Content.Sample.{IsContent-sample}
use rabbitpy.Message.Publish.Frames.{message_frames, publish-writes}

abbrev property_type : String → String
property_type key = if str_eq key "priority" then "octet" else "shortstr"

abbrev to_int : PropertyValue → ToInt
to_int (integer n) = ToInt.converted n
to_int (str s) = ToInt.value_fails
to_int _ = ToInt.type_fails

abbrev convert : Convert
convert = record {
  attributes = "app_id" ∷ "priority" ∷ "timestamp" ∷ [];
  property_type = property_type;
  to_str = λ _. "text";
  to_int = to_int;
  encode = λ _. 1 ∷ 2 ∷ 3 ∷ 4 ∷ 5 ∷ [];
  from_struct_time = λ n. n;
  from_timestamp = λ _. 0;
}

abbrev message : Message
message = record {
  delivery_tag = none;
  properties = ("app_id", integer 3) ∷ ("color", str "red") ∷ ("priority", integer 2) ∷ [];
  body = str "hello";
}

abbrev coerced : Properties
coerced = ("app_id", bytes (1 ∷ 2 ∷ 3 ∷ 4 ∷ 5 ∷ [])) ∷ ("priority", integer 2) ∷ []

abbrev attached : ℕ → Attached
attached maximum = record { message = message; channel = open_channel maximum [] }

run_coerced :
    coerce_properties convert (prune_invalid_properties convert message.properties)
    ≡ (return tt, coerced)
unfolding coerce_properties prune_invalid_properties invalid_properties delete_all maybe_utf8_encode
run_coerced = refl

run_pieces : body_pieces 4 (1 ∷ 2 ∷ 3 ∷ 4 ∷ 5 ∷ []) ≡ (1 ∷ 2 ∷ 3 ∷ 4 ∷ []) ∷ (5 ∷ []) ∷ []
unfolding body_pieces
run_pieces = refl

encoded : maybe_utf8_encode convert (str "hello") ≡ bytes (1 ∷ 2 ∷ 3 ∷ 4 ∷ 5 ∷ [])
unfolding maybe_utf8_encode
encoded = refl

writable : CanWrite (open_channel 4 [])
writable = record { exceptions = refl; connected = refl; open_state = refl }

publish-writes_example :
    (pieces : List (List ℕ)) × (publish convert sample 5 "exchange"
        (some "key")
        true
        false
        (attached 4)
      ≡ (
        return none,
        record (attached 4) {
          message = record message { properties = coerced };
          channel =
              wrote
                (message_frames "exchange" (some "key") true false 5 coerced pieces)
                (open_channel 4 []);
        },
      ))
    × (concat pieces ≡ 1 ∷ 2 ∷ 3 ∷ 4 ∷ 5 ∷ [])
    × All (IsPiece 4 (1 ∷ 2 ∷ 3 ∷ 4 ∷ 5 ∷ [])) pieces
publish-writes_example =
    publish-writes convert sample 5 "exchange" (some "key") true false (attached 4)
      (1 ∷ 2 ∷ 3 ∷ 4 ∷ 5 ∷ []) coerced encoded run_coerced (omega arith) writable refl

publish-Delivers_example :
    (frames : List Frame) × (publish convert sample 5 "exchange"
        (some "key")
        true
        false
        (attached 4)
      ≡ (
        return none,
        record (attached 4) {
          message = record message { properties = coerced };
          channel = wrote (Frame.publish "exchange" "key" true false ∷ frames) (open_channel 4 []);
        },
      ))
    × Delivers sample frames coerced (1 ∷ 2 ∷ 3 ∷ 4 ∷ 5 ∷ [])
publish-Delivers_example =
    publish-Delivers convert sample 5 "exchange" (some "key") true false (attached 4)
      (1 ∷ 2 ∷ 3 ∷ 4 ∷ 5 ∷ []) coerced IsContent-sample encoded run_coerced (omega arith) writable
      refl
