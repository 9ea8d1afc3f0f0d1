-- ===== src/Queue/Attributes/Typed.antt =====
-- The types of the values that a queue's attributes hold (rabbitpy/amqp_queue.py, the constructor and
-- `__setattr__`).
use rabbitpy.Prelude.{
  ◌≡◌, if◌then◌else◌, true, false, String, Option, Bool-cases, inl, inr, none, some, List, [], ◌∷◌,
  eq_iff, insert, lookup, lookup-insert, arith,
}
use rabbitpy.Exceptions.{value_error}
use rabbitpy.Action.{Outcome, return, raise}
use rabbitpy.Queue.Attributes.{Attribute, Attributes, set_attribute, Given, attempts}
use rabbitpy.Queue.Attributes.Kinds.{kind, fits, check_lem, is_false}

-- Every attribute that is set has a value of its type.
abbrev pub IsTyped : Attributes → Type 0
IsTyped s =
    (name : String) (value : Attribute) → lookup name s ≡ some value → fits (kind name) value ≡ true

-- The first name whose value is of another type.
abbrev pub misfit : List (String × Attribute) → Option String
misfit [] = none
misfit ((name, value) ∷ rest) = if fits (kind name) value then misfit rest else some name

abbrev pub outcome : Option String → Outcome (Unit {0})
outcome none = return tt
outcome (some name) = raise (value_error name)

set_attribute_lem :
    (name : String) (value : Attribute) (s : Attributes)
    → set_attribute name value s ≡ (
        if fits (kind name) value
        then (return tt, insert name value s)
        else (raise (value_error name), s))
unfolding set_attribute
set_attribute_lem name value s = ground (arith, check_lem name value)

insert-IsTyped :
    (name : String) (value : Attribute) (s : Attributes)
    → IsTyped s
    → fits (kind name) value ≡ true
    → IsTyped (insert name value s)
insert-IsTyped name value s i f other found e =
    let looked = lookup-insert name other value s in
    ground (arith, looked, eq_iff name other, i other found)

set_attribute-IsTyped :
    (name : String) (value : Attribute) (s : Attributes)
    → IsTyped s
    → IsTyped (set_attribute name value s).1
set_attribute-IsTyped name value s i = elim (Bool-cases (fits (kind name) value)) [
  | inl f ↦ rw (set_attribute_lem name value s, f) (insert-IsTyped name value s i f)
  | inr f ↦ rw (set_attribute_lem name value s, f) i
]

pub attempts-IsTyped :
    (values : List (String × Attribute)) (s : Attributes) → IsTyped s → IsTyped (attempts values s)
unfolding attempts
attempts-IsTyped [] s i = i
attempts-IsTyped ((name, value) ∷ rest) s i =
    attempts-IsTyped rest (set_attribute name value s).1 (set_attribute-IsTyped name value s i)

-- The dictionary once the values before the first misfit have been assigned.
abbrev pub taken : List (String × Attribute) → Attributes → Attributes
taken [] s = s
taken ((name, value) ∷ rest) s =
    let later = taken rest (insert name value s) in if fits (kind name) value then later else s

-- The attributes of a new queue with their values.
abbrev pub wanted : (consumer_tag : String) → Given → List (String × Attribute)
wanted consumer_tag given =
    ("consumer_tag", Attribute.text consumer_tag)
    ∷ ("consuming", Attribute.boolean false)
    ∷ ("durable", given.durable)
    ∷ ("exclusive", given.exclusive)
    ∷ ("auto_delete", given.auto_delete)
    ∷ ("arguments", if is_false given.arguments then Attribute.dictionary [] else given.arguments)
    ∷ ("max_length", given.max_length)
    ∷ ("message_ttl", given.message_ttl)
    ∷ ("expires", given.expires)
    ∷ ("dead_letter_exchange", given.dead_letter_exchange)
    ∷ ("dead_letter_routing_key", given.dead_letter_routing_key)
    ∷ []
