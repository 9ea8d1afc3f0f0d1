-- ===== src/Message/Create/Tests.antt =====
-- Runs of the constructor of Message (rabbitpy/message.py).
use rabbitpy.Prelude.{◌≡◌, refl, insert, true, false, none, some, [], ◌∷◌, String, lookup, All}
use rabbitpy.Exceptions.{deprecation_warning, key_error}
use rabbitpy.Action.{return, raise}
use rabbitpy.Frame.{str, bytes, integer, datetime}
use rabbitpy.Message.Publish.{Message}
use rabbitpy.Message.Create.Wanted.{filled, body_of, Among}
use rabbitpy.Message.Create.Filled.{create-filled}
use rabbitpy.Message.Properties.{Convert, Properties, type_fails, as_datetime, invalid_properties}
use rabbitpy.Message.Create.{create, plain, structure}

abbrev convert : Convert
convert = record {
  attributes = "content_type" ∷ "message_id" ∷ "timestamp" ∷ [];
  property_type = λ key. "shortstr";
  to_str = λ value. "";
  to_int = λ value. type_fails;
  encode = λ text. [];
  from_struct_time = λ t. t;
  from_timestamp = λ value. 7;
}

run_opinionated :
    create convert (λ s. "[]") "id" 5 (structure 1) none false true
    ≡ return (record {
      delivery_tag = none;
      properties =
          ("content_type", str "application/json")
          ∷ ("message_id", str "id")
          ∷ ("timestamp", datetime 5)
          ∷ [];
      body = str "[]";
    })
unfolding create as_datetime invalid_properties insert
run_opinionated = refl

run_auto_id :
    create convert (λ s. "") "id" 5 (plain (bytes [])) none true false ≡ raise deprecation_warning
unfolding create
run_auto_id = refl

run_invalid :
    create convert
      (λ s. "")
      "id"
      5
      (plain (bytes []))
      (some (("colour", integer 3) ∷ []))
      false
      false
    ≡ raise (key_error "colour")
unfolding create invalid_properties
run_invalid = refl

abbrev given : Properties
given = ("content_type", str "text/plain") ∷ []

abbrev made : Message
made = record {
  delivery_tag = none;
  properties =
      ("content_type", str "application/json")
      ∷ ("message_id", str "id")
      ∷ ("timestamp", datetime 5)
      ∷ [];
  body = str "[]";
}

run_given : create convert (λ s. "[]") "id" 5 (structure 1) (some given) false true ≡ return made
unfolding create as_datetime invalid_properties insert
run_given = refl

create-filled_example :
    All (λ p. Among p.0 convert.attributes) made.properties
    × ((key : String)
        → lookup key made.properties ≡ filled convert (structure 1) "id" 5 true given key)
    × (made.body ≡ body_of (λ s. "[]") (structure 1))
    × (made.delivery_tag ≡ none)
create-filled_example =
    create-filled convert (λ s. "[]") "id" 5 (structure 1) given true made run_given
