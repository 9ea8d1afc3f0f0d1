-- ===== src/Queue/Attributes/Kinds.antt =====
-- The types of a queue's attributes, name by name, against the checks of `__setattr__`
-- (rabbitpy/amqp_queue.py).
use rabbitpy.Prelude.{
  ◌≡◌, refl, if◌then◌else◌, Bool, ◌||◌, ◌==◌, not, is_empty, true, false, String, Bool-cases, inl,
  inr, List, [], ◌∷◌, str_eq, eq_iff, arith, All,
}
use mathlib.Core.Path.{subst}
use rabbitpy.Exceptions.{value_error}
use rabbitpy.Action.{return, raise}
use rabbitpy.Queue.Attributes.{
  Attribute, is_none, is_bool, is_int, is_string, is_dict, among, flags, numbers, texts, check,
  or_empty,
}

-- The types that the attributes are documented with, and any for the others.
pub data Kind : Type 0 where
  flag number word table any : Kind

pub kind : String → Kind
kind name =
    if str_eq "auto_delete" name || str_eq "durable" name || str_eq "exclusive" name
    then flag
    else if str_eq "max_length" name || str_eq "message_ttl" name || str_eq "expires" name
    then number
    else if str_eq "consumer_tag" name
        || str_eq "dead_letter_exchange" name
        || str_eq "dead_letter_routing_key" name
    then word
    else if str_eq name "arguments"
    then table
    else any

-- A value of the kind: None, or a bool for a flag, an int or a bool for a number, a str or bytes for
-- a word, and a dict for a table.
abbrev pub fits : Kind → Attribute → Bool
fits k Attribute.nothing = true
fits any value = true
fits flag (Attribute.boolean b) = true
fits number (Attribute.boolean b) = true
fits number (Attribute.integer n) = true
fits word (Attribute.text t) = true
fits word (Attribute.bytes b) = true
fits table (Attribute.dictionary d) = true
fits k value = false

-- A property of each of these names is one of a name among them.
among-All :
    (P : String → Type 0) (name : String) (names : List String)
    → All P names
    → among name names ≡ true
    → P name
unfolding among
among-All P name [] h e = ground arith
among-All P name (n ∷ names) h e = elim (Bool-cases (str_eq n name)) [
  | inl same ↦ subst P ((eq_iff n name).0 same) h.0
  | inr other ↦ among-All P name names h.1 (ground (arith, other, e))
]

among_three :
    (a b c name : String)
    → among name (a ∷ b ∷ c ∷ []) ≡ (str_eq a name || str_eq b name || str_eq c name)
unfolding among
among_three a b c name = ground arith

-- The three groups of names and "arguments" have no name in common.
flags_lem :
    (name : String)
    → among name flags ≡ true
    → (among name numbers ≡ false) × (among name texts ≡ false) × (str_eq name "arguments" ≡ false)
unfolding among
flags_lem name =
    among-All
      (λ n. (among n numbers ≡ false) × (among n texts ≡ false) × (str_eq n "arguments" ≡ false))
      name flags ((refl, refl, refl), ((refl, refl, refl), ((refl, refl, refl), tt)))

numbers_lem :
    (name : String)
    → among name numbers ≡ true
    → (among name texts ≡ false) × (str_eq name "arguments" ≡ false)
unfolding among
numbers_lem name =
    among-All (λ n. (among n texts ≡ false) × (str_eq n "arguments" ≡ false)) name numbers
      ((refl, refl), ((refl, refl), ((refl, refl), tt)))

texts_lem : (name : String) → among name texts ≡ true → str_eq name "arguments" ≡ false
unfolding among
texts_lem name = among-All (λ n. str_eq n "arguments" ≡ false) name texts (refl, (refl, (refl, tt)))

-- The kind by the groups of names that `__setattr__` goes through.
kind_lem :
    (name : String)
    → kind name ≡ (
        if among name flags
        then flag
        else if among name numbers
        then number
        else if among name texts
        then word
        else if str_eq name "arguments"
        then table
        else any)
unfolding kind
kind_lem name =
    rw
      (
        among_three "auto_delete" "durable" "exclusive" name,
        among_three "max_length" "message_ttl" "expires" name,
        among_three "consumer_tag" "dead_letter_exchange" "dead_letter_routing_key" name,
      )
      refl

-- Each type of value at each group of names.
pub check_lem :
    (name : String) (value : Attribute)
    → check name value ≡ (if fits (kind name) value then return tt else raise (value_error name))
unfolding check is_none is_bool is_int is_string is_dict
check_lem name Attribute.nothing = refl
check_lem name (Attribute.boolean b) =
    rw (kind_lem name) (ground (arith, flags_lem name, numbers_lem name, texts_lem name))
check_lem name (Attribute.integer n) =
    rw (kind_lem name) (ground (arith, flags_lem name, numbers_lem name, texts_lem name))
check_lem name (Attribute.text t) =
    rw (kind_lem name) (ground (arith, flags_lem name, numbers_lem name, texts_lem name))
check_lem name (Attribute.bytes b) =
    rw (kind_lem name) (ground (arith, flags_lem name, numbers_lem name, texts_lem name))
check_lem name (Attribute.dictionary d) =
    rw (kind_lem name) (ground (arith, flags_lem name, numbers_lem name, texts_lem name))
check_lem name (Attribute.object truthy n) =
    rw (kind_lem name) (ground (arith, flags_lem name, numbers_lem name, texts_lem name))

-- What counts as false in Python.
abbrev pub is_false : Attribute → Bool
is_false Attribute.nothing = true
is_false (Attribute.boolean b) = not b
is_false (Attribute.integer n) = n == 0
is_false (Attribute.text t) = str_eq t ""
is_false (Attribute.bytes b) = is_empty b
is_false (Attribute.dictionary d) = is_empty d
is_false (Attribute.object truthy n) = not truthy

pub or_empty_lem :
    (value : Attribute)
    → or_empty value ≡ (if is_false value then Attribute.dictionary [] else value)
unfolding or_empty
or_empty_lem Attribute.nothing = refl
or_empty_lem (Attribute.boolean b) = ground arith
or_empty_lem (Attribute.integer n) = refl
or_empty_lem (Attribute.text t) = refl
or_empty_lem (Attribute.bytes []) = refl
or_empty_lem (Attribute.bytes (b ∷ bs)) = refl
or_empty_lem (Attribute.dictionary []) = refl
or_empty_lem (Attribute.dictionary (d ∷ ds)) = refl
or_empty_lem (Attribute.object truthy n) = ground arith
