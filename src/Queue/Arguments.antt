-- ===== src/Queue/Arguments.antt =====
-- The arguments with which a queue is declared (rabbitpy/amqp_queue.py).
use rabbitpy.Prelude.{
  ℕ, zero, suc, ◌≡◌, refl, if◌then◌else◌, String, Option, none, some, List, [], ◌∷◌, str_eq,
  distinct, insert, lookup, lookup-insert, lookup-delete, arith, is_empty,
}
use rabbitpy.Frame.{Value, int, text, texts}
use rabbitpy.Queue.{Queue, number, word, put_if, declare_arguments, ha_arguments}

-- What an override that may be absent makes of a value.
abbrev pub override : Option Value → Option Value → Option Value
override none rest = rest
override (some v) rest = some v

-- A number that is set: neither None nor 0.
unfoldable pub set_number : Option ℕ → Option Value
set_number none = none
set_number (some zero) = none
set_number (some (suc n)) = some (int (suc n))

-- A text that is set: neither None nor empty.
unfoldable pub set_text : Option String → Option Value
set_text none = none
set_text (some t) = if str_eq t "" then none else some (text t)

number-set_number : (v : Option ℕ) → number v ≡ set_number v
unfolding number set_number
number-set_number none = refl
number-set_number (some zero) = ground arith
number-set_number (some (suc n)) = ground arith

word-set_text : (v : Option String) → word v ≡ set_text v
unfolding word set_text
word-set_text none = refl
word-set_text (some t) = refl

-- The argument that an attribute of the queue stands for; an attribute that is None, 0 or empty
-- stands for none.
abbrev pub attribute : Queue → String → Option Value
attribute s key =
    if str_eq "x-dead-letter-routing-key" key
    then set_text s.dead_letter_routing_key
    else if str_eq "x-dead-letter-exchange" key
    then set_text s.dead_letter_exchange
    else if str_eq "x-max-length" key
    then set_number s.max_length
    else if str_eq "x-message-ttl" key
    then set_number s.message_ttl
    else if str_eq "x-expires" key
    then set_number s.expires
    else none

lookup-put_if :
    (k j : String) (v : Option Value) (m : List (String × Value))
    → lookup j (put_if k v m) ≡ (if str_eq k j then override v (lookup j m) else lookup j m)
unfolding put_if
lookup-put_if k j none m = ground arith
lookup-put_if k j (some v) m = lookup-insert k j v m

-- The declared arguments are the queue's own, under each of the five names replaced by the
-- attribute of that name where it is set.
pub lookup-declare_arguments :
    (s : Queue) (key : String)
    → lookup key (declare_arguments s) ≡ override (attribute s key) (lookup key s.arguments)
unfolding declare_arguments
lookup-declare_arguments s key =
    let a : List (String × Value) = s.arguments in
    let b : List (String × Value) = put_if "x-expires" (number s.expires) a in
    let c : List (String × Value) = put_if "x-message-ttl" (number s.message_ttl) b in
    let d : List (String × Value) = put_if "x-max-length" (number s.max_length) c in
    let e : List (String × Value) =
      put_if "x-dead-letter-exchange" (word s.dead_letter_exchange) d in
    rw
      (
        lookup-put_if "x-dead-letter-routing-key" key (word s.dead_letter_routing_key) e,
        lookup-put_if "x-dead-letter-exchange" key (word s.dead_letter_exchange) d,
        lookup-put_if "x-max-length" key (number s.max_length) c,
        lookup-put_if "x-message-ttl" key (number s.message_ttl) b,
        lookup-put_if "x-expires" key (number s.expires) a,
        word-set_text s.dead_letter_routing_key,
        word-set_text s.dead_letter_exchange,
        number-set_number s.max_length,
        number-set_number s.message_ttl,
        number-set_number s.expires,
      )
      (ground (
        arith,
        distinct "x-dead-letter-routing-key" "x-dead-letter-exchange" key refl,
        distinct "x-dead-letter-routing-key" "x-max-length" key refl,
        distinct "x-dead-letter-routing-key" "x-message-ttl" key refl,
        distinct "x-dead-letter-routing-key" "x-expires" key refl,
        distinct "x-dead-letter-exchange" "x-max-length" key refl,
        distinct "x-dead-letter-exchange" "x-message-ttl" key refl,
        distinct "x-dead-letter-exchange" "x-expires" key refl,
        distinct "x-max-length" "x-message-ttl" key refl,
        distinct "x-max-length" "x-expires" key refl,
        distinct "x-message-ttl" "x-expires" key refl,
      ))

-- After `ha_declare`, the policy is 'nodes' with these nodes, or 'all' without nodes if none are
-- given; every other argument is as before.
pub lookup-ha_arguments :
    (nodes : List String) (arguments : List (String × Value)) (key : String)
    → lookup key (ha_arguments nodes arguments) ≡ (
        if str_eq "x-ha-nodes" key
        then (if is_empty nodes then none else some (texts nodes))
        else if str_eq "x-ha-policy" key
        then some (text (if is_empty nodes then "all" else "nodes"))
        else lookup key arguments)
unfolding ha_arguments
lookup-ha_arguments [] arguments key = ground (
  arith,
  lookup-delete "x-ha-nodes" key (insert "x-ha-policy" (text "all") arguments),
  lookup-insert "x-ha-policy" key (text "all") arguments,
)
lookup-ha_arguments (node ∷ nodes) arguments key = ground (
  arith,
  lookup-insert "x-ha-nodes" key (texts (node ∷ nodes))
      (insert "x-ha-policy" (text "nodes") arguments),
  lookup-insert "x-ha-policy" key (text "nodes") arguments,
)
