-- ===== src/Message/Create/Wanted.antt =====
-- What a new message holds, said without the steps of the constructor (rabbitpy/message.py).
use rabbitpy.Prelude.{
  ℕ, ◌≡◌, ◌⊎◌, if◌then◌else◌, Bool, true, false, ◌&&◌, String, Option, none, some, List, [], ◌∷◌,
  str_eq, lookup,
}
use rabbitpy.Frame.{PropertyValue, null, str, bytes, integer, float, datetime, struct_time}
use rabbitpy.Message.Properties.{Convert, Properties, converted}
use rabbitpy.Message.Create.{BodyValue, memory_view, structure, plain}

-- A dictionary or a list sets the content type; the message id is filled in where it is missing and
-- wanted; any other property is the given one.
abbrev pub untimed :
    BodyValue → (uuid : String) (opinionated : Bool) → Properties → String → Option PropertyValue
untimed value uuid opinionated given key =
    if is_structure value && str_eq "content_type" key
    then some (str "application/json")
    else if opinionated && str_eq "message_id" key
    then elim (lookup "message_id" given) [ none ↦ some (str uuid) | some id ↦ some id ]
    else lookup key given
  where
    is_structure : BodyValue → Bool
    is_structure (structure s) = true
    is_structure value = false

-- The datetime of a timestamp: None and a datetime stand for themselves, a struct_time and a number
-- are converted, and a text by the number that it is read as. Any other value has none.
abbrev pub time_of : Convert → PropertyValue → PropertyValue
time_of convert (datetime d) = datetime d
time_of convert (struct_time t) = datetime (convert.from_struct_time t)
time_of convert (integer n) = datetime (convert.from_timestamp (integer n))
time_of convert (float f) = datetime (convert.from_timestamp (float f))
time_of convert (str s) = elim (convert.to_int (str s)) [
  | converted n ↦ datetime (convert.from_timestamp (integer n))
  | _ ↦ null
]
time_of convert (bytes b) = elim (convert.to_int (bytes b)) [
  | converted n ↦ datetime (convert.from_timestamp (integer n))
  | _ ↦ null
]
time_of convert value = null

-- The timestamp: the given one as a datetime, or else the current time, if it is wanted.
abbrev pub stamped :
    Convert → (now : ℕ) (opinionated : Bool) → Option PropertyValue → Option PropertyValue
stamped convert now opinionated (some value) = some (time_of convert value)
stamped convert now true none = some (datetime now)
stamped convert now false none = none

abbrev pub filled :
    Convert
    → BodyValue
    → (uuid : String) (now : ℕ) (opinionated : Bool) → Properties
    → String
    → Option PropertyValue
filled convert value uuid now opinionated given key =
    if str_eq "timestamp" key
    then stamped convert now opinionated (lookup "timestamp" given)
    else untimed value uuid opinionated given key

-- The body: the bytes of a memoryview, the text of a dictionary or a list, and any other as it is.
abbrev pub body_of : (dumps : ℕ → String) → BodyValue → PropertyValue
body_of dumps (memory_view b) = bytes b
body_of dumps (structure s) = str (dumps s)
body_of dumps (plain value) = value

-- One of these names.
abbrev pub Among : String → List String → Type 0
Among name [] = ⊥
Among name (n ∷ names) = (n ≡ name) ⊎ Among name names
