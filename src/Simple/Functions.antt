-- ===== src/Simple/Functions.antt =====
-- rabbitpy/simple.py: the functions that do one thing on a channel of their own. `created` is the
-- connection as its constructor has set it up from the URI, before it connects, or the exception that
-- the URI was (Connection/Url).
use rabbitpy.Prelude.{
  ℕ, zero, suc, ◌∷◌, if◌then◌else◌, Bool, true, false, String, Option, none, some, List, [], str_eq,
}
use rabbitpy.Exceptions.{value_error}
use rabbitpy.Action.{Action, Outcome, return, raise, blocked, no_fuel, pure, ◌>>=◌, ◌>>◌}
use rabbitpy.Frame.{Pamqp, PropertyValue, Value}
use rabbitpy.Channel.{Channel, Tick}
use rabbitpy.Channel.Api
use rabbitpy.Channel.Content.{Received}
use rabbitpy.Connection.State.{Connection}
use rabbitpy.Connection.Channels.{channel}
use rabbitpy.Exchange
use rabbitpy.Exchange.{Exchange}
use rabbitpy.Message.Properties.{Convert, Properties}
use rabbitpy.Message.Create.{BodyValue, create}
use rabbitpy.Message.Publish
use rabbitpy.Message.Publish.{Message}
use rabbitpy.Queue
use rabbitpy.Queue.{new_queue}
use rabbitpy.Queue.Consuming
use rabbitpy.Simple.{on_channel, with_channel}

-- `_validate_name`
unfoldable pub validate_name : Option String → (obj_type : String) → Outcome String
validate_name none obj_type = raise (value_error obj_type)
validate_name (some value) obj_type =
    if str_eq value "" then raise (value_error obj_type) else return value

-- What is returned or raised, with the connection if one was made.
abbrev pub Result : Type 0 → Type 0
Result A = Outcome A × Option Connection

-- `_validate_name(name, ...)` before the rest of a function
unfoldable pub named : {A : Type 0} → Outcome String → (String → Result A) → Result A
named (return name) f = f name
named (raise e) f = (raise e, none)
named blocked f = (blocked, none)
named no_fuel f = (no_fuel, none)

-- An action on a queue, or on an exchange, that is made for the channel.
on_queue : {A : Type 0} → (Channel → Queue.Queue) → Action Queue.Queue A → Action Channel A
on_queue make m c = let r = m (make c) in (r.0, r.1.channel)

on_exchange : {A : Type 0} → (Channel → Exchange) → Action Exchange A → Action Channel A
on_exchange make m c = let r = m (make c) in (r.0, r.1.channel)

-- `Queue(channel, queue_name)`, with its defaults
plain_queue : String → Channel → Queue.Queue
plain_queue name channel = new_queue channel name false false false none none none none none none

module _ (pamqp : Pamqp) (rounds : ℕ) (table_of : Value → List (String × Bool))
    (ticks : List Tick) where
  -- A function whose `with` block is an action on the channel.
  unfoldable pub simply : {A : Type 0} → Outcome Connection → Action Channel A → Result A
  simply (return s) m =
      let r = with_channel pamqp rounds table_of ticks (λ id. on_channel id m) s in (r.0, some r.1)
  simply (raise e) m = (raise e, none)
  simply blocked m = (blocked, none)
  simply no_fuel m = (no_fuel, none)

module _ (pamqp : Pamqp) (rounds : ℕ) (table_of : Value → List (String × Bool)) (ticks : List Tick)
    (created : Outcome Connection) where
  -- `consumer_tag` is that of the new queue.
  unfoldable pub get :
      (parts : ℕ) (consumer_tag : String) → Option String → Result (Option Received)
  unfolding validate_name plain_queue
  get parts consumer_tag queue_name = named (validate_name queue_name "queue") λ name.
      simply pamqp rounds table_of ticks created λ c.
        let r = Consuming.get false pamqp rounds false parts (record {
          queue = plain_queue name c;
          id = 0;
          consumer_tag = consumer_tag;
          consuming = false;
        }) in
        (r.0, r.1.queue.channel)

  -- What the caller takes of the generator: so many messages, or all, before it gives it up.
  take : (parts number : ℕ) → Action Consuming.Consumer (List Received)
  take parts zero = Consuming.close false pamqp rounds >> pure []
  take parts (suc number) = do
    message ← Consuming.next false pamqp rounds parts
    elim message [ none ↦ pure [] | some m ↦ take parts number >>= λ rest. pure (m ∷ rest) ]

  -- `consume`, of which the caller takes a message and up to so many more
  unfoldable pub consume :
      (parts more : ℕ) (consumer_tag : String) (queue_name : Option String) (no_ack : Bool)
      (prefetch priority : Option ℕ)
      → Result (List Received)
  unfolding validate_name plain_queue take
  consume parts more consumer_tag queue_name no_ack prefetch priority =
      named (validate_name queue_name "queue") λ name.
        simply pamqp rounds table_of ticks created λ c.
          let r =
            (Consuming.begin false pamqp rounds no_ack prefetch priority none
                >> take parts (suc more))
              (record {
                queue = plain_queue name c;
                id = 0;
                consumer_tag = consumer_tag;
                consuming = false;
              }) in
          (r.0, r.1.queue.channel)

  unfoldable pub create_queue :
      (queue_name : Option String) (durable auto_delete : Bool)
      (max_length message_ttl expires : Option ℕ)
      (dead_letter_exchange dead_letter_routing_key : Option String)
      → Option (List (String × Value))
      → Result Unit
  unfolding validate_name on_queue
  create_queue queue_name durable auto_delete max_length message_ttl expires dead_letter_exchange
        dead_letter_routing_key arguments =
      named (validate_name queue_name "queue") λ name. simply pamqp rounds table_of ticks created (
        on_queue
          (λ c.
            new_queue c name durable false auto_delete max_length message_ttl expires
              dead_letter_exchange dead_letter_routing_key arguments)
          (Queue.declare pamqp rounds false >> pure tt))

  unfoldable pub delete_queue : Option String → Result Unit
  unfolding validate_name on_queue plain_queue
  delete_queue queue_name = named (validate_name queue_name "queue") λ name.
      simply pamqp rounds table_of ticks created
        (on_queue (plain_queue name) (Queue.delete_queue pamqp rounds false false))

  -- `_create_exchange`
  unfoldable pub create_exchange :
      Exchange.Constructor → Option String → (durable : Bool) → Result Unit
  unfolding validate_name on_exchange
  create_exchange exchange_class exchange_name durable =
      named (validate_name exchange_name "exchange") λ name.
        simply pamqp rounds table_of ticks created (
          on_exchange (λ c. exchange_class c name durable false none)
            (Exchange.declare pamqp rounds false))

  unfoldable pub create_direct_exchange : Option String → (durable : Bool) → Result Unit
  unfolding create_exchange
  create_direct_exchange = create_exchange Exchange.direct_exchange

  unfoldable pub create_fanout_exchange : Option String → (durable : Bool) → Result Unit
  unfolding create_exchange
  create_fanout_exchange = create_exchange Exchange.fanout_exchange

  unfoldable pub create_headers_exchange : Option String → (durable : Bool) → Result Unit
  unfolding create_exchange
  create_headers_exchange = create_exchange Exchange.headers_exchange

  unfoldable pub create_topic_exchange : Option String → (durable : Bool) → Result Unit
  unfolding create_exchange
  create_topic_exchange = create_exchange Exchange.topic_exchange

  unfoldable pub delete_exchange : Option String → Result Unit
  unfolding validate_name on_exchange
  delete_exchange exchange_name = named (validate_name exchange_name "exchange") λ name.
      simply pamqp rounds table_of ticks created (
        on_exchange (λ c. Exchange.direct_exchange c name false false none)
          (Exchange.delete pamqp rounds false))

  module _ (convert : Convert) where
    -- `msg.publish(...)`
    publish_message :
        Outcome Message
        → (exchange_name : String) (routing_key : Option String) (mandatory : Bool)
        → Action Channel (Option Bool)
    publish_message (return message) exchange_name routing_key mandatory c =
        let r =
          Publish.publish convert pamqp rounds exchange_name routing_key mandatory false
            (record { message = message; channel = c }) in
        (r.0, r.1.channel)
    publish_message (raise e) exchange_name routing_key mandatory c = (raise e, c)
    publish_message blocked exchange_name routing_key mandatory c = (blocked, c)
    publish_message no_fuel exchange_name routing_key mandatory c = (no_fuel, c)

    -- The message is made before the confirms are switched on; without them nothing is returned.
    unfoldable pub send :
        (confirm : Bool)
        → Outcome Message
        → (exchange_name : String) (routing_key : Option String) → Action Channel (Option Bool)
    unfolding publish_message
    send confirm (return message) exchange_name routing_key =
        if confirm
        then Api.enable_publisher_confirms pamqp rounds
          >> publish_message (return message) exchange_name routing_key true
        else publish_message (return message) exchange_name routing_key false >> pure none
    send confirm other exchange_name routing_key =
        publish_message other exchange_name routing_key false

    -- A body that counts as false is none.
    unfoldable pub publish :
        (dumps : ℕ → String) (uuid : String) (now : ℕ) (exchange_name routing_key : Option String)
        (body : Option BodyValue)
        → Option Properties
        → (confirm : Bool) → Result (Option Bool)
    unfolding send
    publish dumps uuid now exchange_name routing_key body properties confirm =
        let value : BodyValue = elim body [
          | none ↦ BodyValue.plain (PropertyValue.str "")
          | some b ↦ b
        ] in
        let given : Properties = elim properties [ none ↦ [] | some p ↦ p ] in
        simply pamqp rounds table_of ticks created (
          send confirm (create convert dumps uuid now value (some given) false false)
            (Publish.or_empty exchange_name) (some (Publish.or_empty routing_key)))
