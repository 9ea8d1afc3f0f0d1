-- ===== src/Queue.antt =====
-- rabbitpy/amqp_queue.py: the declaration of a queue and the commands on it. The fields have the
-- types that the checks of `__setattr__` let through (Attributes), a text for a str or bytes. A source
-- is known by its name.
pub mod Arguments
pub mod Attributes
pub mod Declared
pub mod Consuming
mod Tests
use rabbitpy.Prelude.{
  ℕ, ◌==◌, if◌then◌else◌, Bool, true, false, not, String, Option, none, some, List, [], ◌∷◌, str_eq,
  insert, delete,
}
use rabbitpy.Exceptions.{attribute_error}
use rabbitpy.Action.{
  Action, Outcome, return, raise, blocked, no_fuel, pure, throw, gets, modify, when, zoom, ◌>>=◌,
  ◌>>◌,
}
use rabbitpy.Frame
use rabbitpy.Frame.{Frame, FrameClass, Pamqp, Value, int, text, texts, class_of}
use rabbitpy.Channel.{Channel}
use rabbitpy.Channel.Wait.{rpc}

pub record Queue : Type 0 where
  pub channel : Channel
  pub name : String
  pub durable : Bool
  pub exclusive : Bool
  pub auto_delete : Bool
  pub arguments : List (String × Value)
  pub max_length : Option ℕ
  pub message_ttl : Option ℕ
  pub expires : Option ℕ
  pub dead_letter_exchange : Option String
  pub dead_letter_routing_key : Option String

-- The constructor, but for the consumer tag.
pub new_queue :
    Channel
    → (name : String) (durable exclusive auto_delete : Bool)
      (max_length message_ttl expires : Option ℕ)
      (dead_letter_exchange dead_letter_routing_key : Option String)
    → Option (List (String × Value))
    → Queue
new_queue channel name durable exclusive auto_delete max_length message_ttl expires
      dead_letter_exchange dead_letter_routing_key arguments =
    record {
      channel = channel;
      name = name;
      durable = durable;
      exclusive = exclusive;
      auto_delete = auto_delete;
      arguments = elim arguments [ none ↦ [] | some table ↦ table ];
      max_length = max_length;
      message_ttl = message_ttl;
      expires = expires;
      dead_letter_exchange = dead_letter_exchange;
      dead_letter_routing_key = dead_letter_routing_key;
    }

abbrev on_channel : {A : Type 0} → Action Channel A → Action Queue A
on_channel = zoom (λ s. s.channel) (λ c s. record s { channel = c })

-- None, 0 and the empty text count as false.
unfoldable pub number : Option ℕ → Option Value
number none = none
number (some n) = if n == 0 then none else some (int n)

unfoldable pub word : Option String → Option Value
word none = none
word (some t) = if str_eq t "" then none else some (text t)

-- `if value: arguments[key] = value`
put_if : String → Option Value → List (String × Value) → List (String × Value)
put_if key none arguments = arguments
put_if key (some value) arguments = insert key value arguments

unfoldable pub declare_arguments : Queue → List (String × Value)
unfolding put_if number word
declare_arguments s = put_if "x-dead-letter-routing-key" (word s.dead_letter_routing_key) (
    put_if "x-dead-letter-exchange" (word s.dead_letter_exchange) (
      put_if "x-max-length" (number s.max_length) (
        put_if "x-message-ttl" (number s.message_ttl)
          (put_if "x-expires" (number s.expires) s.arguments))))

-- `_declare`
pub declare_frame : (passive : Bool) → Queue → Frame
unfolding declare_arguments
declare_frame passive s =
    Frame.declare_queue s.name s.durable passive s.exclusive s.auto_delete (declare_arguments s)

-- `if not self.name: self.name = response.queue`
name_after : String → Queue → Queue
name_after queue s = record s { name = if str_eq s.name "" then queue else s.name }

-- A response of None has no attributes.
after_declare : Option Frame → Action Queue (ℕ × ℕ)
unfolding name_after
after_declare (some (Frame.declared_queue queue message_count consumer_count)) =
    modify (name_after queue) >> pure (message_count, consumer_count)
after_declare _ = throw attribute_error

unfoldable pub ha_arguments : List String → List (String × Value) → List (String × Value)
ha_arguments [] arguments = delete "x-ha-nodes" (insert "x-ha-policy" (text "all") arguments)
ha_arguments (node ∷ nodes) arguments =
    insert "x-ha-nodes" (texts (node ∷ nodes)) (insert "x-ha-policy" (text "nodes") arguments)

or_name : String → String → String
or_name routing_key name = if str_eq routing_key "" then name else routing_key

is_bind_ok : Option Frame → Bool
is_bind_ok (some (Frame.bare FrameClass.queue_bind_ok)) = true
is_bind_ok _ = false

module _ (pamqp : Pamqp) (rounds : ℕ) where
  command : (Queue → Frame) → Action Queue (Option Frame)
  command frame s = on_channel (rpc pamqp rounds (frame s)) s

  unfoldable pub declare : (passive : Bool) → Action Queue (ℕ × ℕ)
  unfolding command after_declare
  declare passive = command (declare_frame passive) >>= after_declare

  -- `__len__`
  after_len : Option Frame → Action Queue ℕ
  after_len (some (Frame.declared_queue queue message_count consumer_count)) = pure message_count
  after_len _ = throw attribute_error

  unfoldable pub len : Action Queue ℕ
  unfolding command after_len
  len = command (declare_frame true) >>= after_len

  unfoldable pub ha_declare : List String → Action Queue (ℕ × ℕ)
  unfolding declare ha_arguments
  ha_declare nodes =
      modify (λ s. record s { arguments = ha_arguments nodes s.arguments }) >> declare false

  unfoldable pub bind : (source routing_key : String) → List (String × Value) → Action Queue Bool
  unfolding command is_bind_ok
  bind source routing_key arguments = do
    response ←
        command (λ s. Frame.bind_queue FrameClass.queue_bind s.name source routing_key arguments)
    pure (is_bind_ok response)

  unfoldable pub unbind : (source routing_key : String) → Action Queue Unit
  unfolding command or_name
  unbind source routing_key =
      command (λ s.
        Frame.bind_queue FrameClass.queue_unbind s.name source (or_name routing_key s.name) [])
      >> pure tt

  unfoldable pub delete_queue : (if_unused if_empty : Bool) → Action Queue Unit
  unfolding command
  delete_queue if_unused if_empty =
      command (λ s. Frame.delete_queue s.name if_unused if_empty) >> pure tt

  unfoldable pub purge : Action Queue Unit
  unfolding command
  purge = command (λ _. Frame.bare FrameClass.queue_purge) >> pure tt
