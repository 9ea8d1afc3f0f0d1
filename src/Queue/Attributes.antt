-- ===== src/Queue/Attributes.antt =====
-- rabbitpy/amqp_queue.py: the attributes of a queue, whose values `__setattr__` checks; with
-- `is_string` of rabbitpy/utils.py. The object's dictionary holds the attributes that have been set.
pub mod Kinds
pub mod Typed
mod Tests
use rabbitpy.Prelude.{
  ℕ, ◌==◌, if◌then◌else◌, Bool, true, false, not, ◌&&◌, ◌||◌, String, List, [], ◌∷◌, str_eq, insert,
}
use rabbitpy.Exceptions.{value_error}
use rabbitpy.Action.{Action, Outcome, return, raise, pure, ◌>>=◌, ◌>>◌}
use rabbitpy.Frame.{Value}

-- A value of Python by its type; any other object is known by a number, and by whether it counts as
-- true.
pub data Attribute : Type 0 where
  nothing : Attribute
  boolean : Bool → Attribute
  integer : ℕ → Attribute
  text : String → Attribute
  bytes : List ℕ → Attribute
  dictionary : List (String × Value) → Attribute
  object : (truthy : Bool) → ℕ → Attribute

unfoldable pub is_none : Attribute → Bool
is_none nothing = true
is_none value = false

unfoldable pub is_bool : Attribute → Bool
is_bool (boolean b) = true
is_bool value = false

-- A bool is an int in Python.
unfoldable pub is_int : Attribute → Bool
is_int (boolean b) = true
is_int (integer n) = true
is_int value = false

unfoldable pub is_string : Attribute → Bool
is_string (text t) = true
is_string (bytes b) = true
is_string value = false

unfoldable pub is_dict : Attribute → Bool
is_dict (dictionary d) = true
is_dict value = false

-- `value or {}`
unfoldable pub or_empty : Attribute → Attribute
or_empty nothing = dictionary []
or_empty (boolean b) = if b then boolean b else dictionary []
or_empty (integer n) = if n == 0 then dictionary [] else integer n
or_empty (text t) = if str_eq t "" then dictionary [] else text t
or_empty (bytes []) = dictionary []
or_empty (object truthy n) = if truthy then object truthy n else dictionary []
or_empty value = value

unfoldable pub among : String → List String → Bool
among name [] = false
among name (n ∷ names) = str_eq n name || among name names

abbrev pub flags : List String
flags = "auto_delete" ∷ "durable" ∷ "exclusive" ∷ []

abbrev pub numbers : List String
numbers = "max_length" ∷ "message_ttl" ∷ "expires" ∷ []

abbrev pub texts : List String
texts = "consumer_tag" ∷ "dead_letter_exchange" ∷ "dead_letter_routing_key" ∷ []

-- The checks of `__setattr__`
unfoldable pub check : (name : String) → Attribute → Outcome (Unit {0})
check name value =
    if is_none value
    then return tt
    else if among name flags && not (is_bool value)
    then raise (value_error name)
    else if among name numbers && not (is_int value)
    then raise (value_error name)
    else if among name texts && not (is_string value)
    then raise (value_error name)
    else if str_eq name "arguments" && not (is_dict value)
    then raise (value_error name)
    else return tt

abbrev pub Attributes : Type 0
Attributes = List (String × Attribute)

-- `__setattr__`
unfoldable pub set_attribute : (name : String) → Attribute → Action Attributes Unit
set_attribute name value = (λ s. (check name value, s)) >> λ s. (return tt, insert name value s)

-- Assignments one after the other, up to the first that raises.
unfoldable pub assign : List (String × Attribute) → Action Attributes Unit
assign [] = pure tt
assign ((name, value) ∷ rest) = set_attribute name value >> assign rest

-- What the constructor is given.
pub record Given : Type 0 where
  pub durable : Attribute
  pub exclusive : Attribute
  pub auto_delete : Attribute
  pub max_length : Attribute
  pub message_ttl : Attribute
  pub expires : Attribute
  pub dead_letter_exchange : Attribute
  pub dead_letter_routing_key : Attribute
  pub arguments : Attribute

-- The assignments of the constructor, with the text of the consumer tag.
unfoldable pub assignments : (consumer_tag : String) → Given → List (String × Attribute)
assignments consumer_tag given =
    ("consumer_tag", text consumer_tag)
    ∷ ("consuming", boolean false)
    ∷ ("durable", given.durable)
    ∷ ("exclusive", given.exclusive)
    ∷ ("auto_delete", given.auto_delete)
    ∷ ("arguments", or_empty given.arguments)
    ∷ ("max_length", given.max_length)
    ∷ ("message_ttl", given.message_ttl)
    ∷ ("expires", given.expires)
    ∷ ("dead_letter_exchange", given.dead_letter_exchange)
    ∷ ("dead_letter_routing_key", given.dead_letter_routing_key)
    ∷ []

-- `Queue(...)`, behind the constructor of its base class
unfoldable pub construct : (consumer_tag : String) → Given → Action Attributes Unit
construct consumer_tag given = assign (assignments consumer_tag given)

-- Assignments by the user, who goes on after one that raises.
unfoldable pub attempts : List (String × Attribute) → Attributes → Attributes
attempts [] s = s
attempts ((name, value) ∷ rest) s = attempts rest (set_attribute name value s).1
