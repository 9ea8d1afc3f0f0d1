-- ===== src/Queue/Attributes/Tests.antt =====
-- Queues that are made with values of other types (rabbitpy/amqp_queue.py).
use rabbitpy.Prelude.{◌≡◌, refl, true, false, [], ◌∷◌}
use rabbitpy.Exceptions.{value_error}
use rabbitpy.Action.{return, raise}
use rabbitpy.Queue.Attributes.{
  Attributes, Given, nothing, boolean, text, object, check, construct, assignments, assign,
  set_attribute, is_none, is_bool, is_int, is_string, is_dict, among, or_empty,
}

abbrev base : Attributes
base = ("channel", object true 1) ∷ ("name", text "events") ∷ []

-- The maximal length is a text.
abbrev given : Given
given = record {
  durable = boolean true;
  exclusive = nothing;
  auto_delete = boolean false;
  max_length = text "many";
  message_ttl = nothing;
  expires = nothing;
  dead_letter_exchange = nothing;
  dead_letter_routing_key = nothing;
  arguments = nothing;
}

run_construct : (construct "tag" given base).0 ≡ raise (value_error "max_length")
unfolding construct assignments assign set_attribute check is_none is_bool is_int is_string is_dict
    among or_empty
run_construct = refl

-- A bool passes as a number.
run_check : check "max_length" (boolean true) ≡ return tt
unfolding check is_none is_bool is_int among
run_check = refl
