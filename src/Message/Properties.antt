-- ===== src/Message/Properties.antt =====
-- rabbitpy/message.py: `_as_datetime`, `_coerce_properties`, `_invalid_properties` and
-- `_prune_invalid_properties`. A dictionary of properties keeps the order of insertion.
use rabbitpy.Prelude.{ℕ, if◌then◌else◌, Bool, false, ◌||◌, String, List, [], ◌∷◌, str_eq}
use rabbitpy.Exceptions.{type_error, value_error}
use rabbitpy.Action.{Outcome, return, raise, blocked, no_fuel}
use rabbitpy.Frame.{
  PropertyValue, null, str, bytes, integer, float, datetime, struct_time, object, dict,
}

-- `int(value)`: a number, a TypeError or a ValueError.
pub data ToInt : Type 0 where
  converted : ℕ → ToInt
  type_fails value_fails : ToInt

-- Python's conversions, and pamqp's table of the properties: their names and types.
pub record Convert : Type 0 where
  pub attributes : List String
  pub property_type : String → String
  pub to_str : PropertyValue → String
  pub to_int : PropertyValue → ToInt
  pub encode : String → List ℕ
  pub from_struct_time : ℕ → ℕ
  pub from_timestamp : PropertyValue → ℕ

abbrev pub Properties : Type 0
Properties = List (String × PropertyValue)

unfoldable pub contains : String → List String → Bool
contains key [] = false
contains key (k ∷ ks) = str_eq k key || contains key ks

module _ (convert : Convert) where
  open convert use {
    attributes, property_type, to_str, to_int, encode, from_struct_time, from_timestamp,
  }

  -- `utils.maybe_utf8_encode`
  unfoldable pub maybe_utf8_encode : PropertyValue → PropertyValue
  maybe_utf8_encode (str s) = bytes (encode s)
  maybe_utf8_encode value = value

  unfoldable pub as_timestamp : ToInt → Outcome PropertyValue
  as_timestamp (converted n) = return (datetime (from_timestamp (integer n)))
  as_timestamp type_fails = raise type_error
  as_timestamp value_fails = raise (value_error "int")

  unfoldable pub as_datetime : PropertyValue → Outcome PropertyValue
  unfolding as_timestamp
  as_datetime null = return null
  as_datetime (datetime d) = return (datetime d)
  as_datetime (struct_time t) = return (datetime (from_struct_time t))
  as_datetime (str s) = as_timestamp (to_int (str s))
  as_datetime (bytes b) = as_timestamp (to_int (bytes b))
  as_datetime (float f) = return (datetime (from_timestamp (float f)))
  as_datetime (integer n) = return (datetime (from_timestamp (integer n)))
  as_datetime (object o) = raise type_error
  as_datetime (dict d) = raise type_error

  -- The 'shortstr' branch: what the variable `value` becomes.
  to_string : PropertyValue → PropertyValue
  to_string (str s) = str s
  to_string (bytes b) = bytes b
  to_string value = str (to_str value)

  -- The 'octet' branch: a TypeError is logged, a ValueError comes out. Beside the outcome stands
  -- what the dictionary holds afterwards; so too below.
  octet : PropertyValue → ToInt → Outcome (Unit {0}) × PropertyValue
  octet (integer n) r = (return tt, integer n)
  octet value (converted n) = (return tt, integer n)
  octet value type_fails = (return tt, value)
  octet value value_fails = (raise (value_error "int"), value)

  -- The 'table' branch
  table : PropertyValue → PropertyValue
  table (dict d) = dict d
  table value = dict []

  by_type : String → PropertyValue → Outcome (Unit {0}) × PropertyValue
  unfolding to_string octet table maybe_utf8_encode
  by_type type value =
      if str_eq type "shortstr"
      then (return tt, maybe_utf8_encode (to_string value))
      else if str_eq type "octet"
      then octet value (to_int value)
      else if str_eq type "table"
      then (return tt, table value)
      else (return tt, value)

  -- `self.properties[key] = self._as_datetime(value)` over what was stored before
  store_datetime : PropertyValue → Outcome PropertyValue → Outcome (Unit {0}) × PropertyValue
  store_datetime stored (return d) = (return tt, d)
  store_datetime stored (raise e) = (raise e, stored)
  store_datetime stored blocked = (blocked, stored)
  store_datetime stored no_fuel = (no_fuel, stored)

  -- `if key == 'timestamp'`, with the variable `value` as the branches above left it
  by_key :
      String
      → PropertyValue
      → Outcome (Unit {0}) × PropertyValue
      → Outcome (Unit {0}) × PropertyValue
  unfolding as_datetime to_string store_datetime
  by_key key value (return a, stored) =
      if str_eq key "timestamp"
      then store_datetime stored
          (as_datetime (if str_eq (property_type key) "shortstr" then to_string value else value))
      else (return tt, stored)
  by_key key value r = r

  -- One round of the loop of `_coerce_properties`.
  coerce : String → PropertyValue → Outcome (Unit {0}) × PropertyValue
  unfolding by_type by_key
  coerce key null = (return tt, null)
  coerce key value = by_key key value (by_type (property_type key) value)

  -- What was coerced before a round raised stays coerced.
  unfoldable pub coerce_properties : Properties → Outcome (Unit {0}) × Properties
  unfolding coerce
  coerce_properties [] = (return tt, [])
  coerce_properties ((key, value) ∷ rest) =
      let later = coerce_properties rest in
      let stored = (coerce key value).1 in
      elim (coerce key value).0 [
        | return _ ↦ (later.0, (key, stored) ∷ later.1)
        | raise e ↦ (raise e, (key, stored) ∷ rest)
        | blocked ↦ (blocked, (key, stored) ∷ rest)
        | no_fuel ↦ (no_fuel, (key, stored) ∷ rest)
      ]

  unfoldable pub invalid_properties : Properties → List String
  unfolding contains
  invalid_properties [] = []
  invalid_properties ((key, value) ∷ rest) =
      let later = invalid_properties rest in if contains key attributes then later else key ∷ later

  unfoldable pub delete_all : List String → Properties → Properties
  unfolding contains
  delete_all keys [] = []
  delete_all keys ((key, value) ∷ rest) =
      let later = delete_all keys rest in if contains key keys then later else (key, value) ∷ later

  -- The loop deletes each invalid key; a key stands once.
  unfoldable pub prune_invalid_properties : Properties → Properties
  unfolding invalid_properties delete_all
  prune_invalid_properties properties = delete_all (invalid_properties properties) properties
