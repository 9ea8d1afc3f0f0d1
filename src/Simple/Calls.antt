-- ===== src/Simple/Calls.antt =====
-- The functions of rabbitpy/simple.py, of which each closes the connection that it made.
use rabbitpy.Prelude.{ℕ, ◌≡◌, refl, Bool, String, Option, some, List}
use rabbitpy.Action.{Action, Outcome, return, raise, blocked, no_fuel}
use rabbitpy.Frame.{Pamqp, Value}
use rabbitpy.Channel.{Channel, Tick}
use rabbitpy.Connection.State.{Connection}
use rabbitpy.Connection.Closing.Ends.{Closed}
use rabbitpy.Message.Properties.{Convert, Properties}
use rabbitpy.Message.Create.{BodyValue}
use rabbitpy.Simple.{on_channel}
use rabbitpy.Simple.Context.{with_channel-Closed}
use rabbitpy.Simple.Functions.{
  Result, named, validate_name, simply, consume, get, publish, create_queue, delete_queue,
  create_exchange, create_direct_exchange, create_fanout_exchange, create_headers_exchange,
  create_topic_exchange, delete_exchange,
}

-- There is a connection, and it is closed.
pub record HasClosed (made : Option Connection) : Type 0 where
  pub connection : Connection
  pub is_made : made ≡ some connection
  pub is_closed : Closed connection

-- What the result of a function says of the connection, if the function returned.
abbrev pub Closes : {A : Type 0} → Result A → Type 0
Closes {A} r = (a : A) → r.0 ≡ return a → HasClosed r.1

module _ (pamqp : Pamqp) (rounds : ℕ) (table_of : Value → List (String × Bool)) (ticks : List Tick)
    {A : Type 0} where
  simply-Closes :
      (created : Outcome Connection) (m : Action Channel A)
      → Closes (simply pamqp rounds table_of ticks created m)
  unfolding simply
  simply-Closes (return s) m a e = record {
    connection = _;
    is_made = refl;
    is_closed = with_channel-Closed pamqp rounds table_of ticks (λ id. on_channel id m) s a e;
  }
  simply-Closes (raise x) m a e = cc
  simply-Closes blocked m a e = cc
  simply-Closes no_fuel m a e = cc

  named-Closes :
      (name : Outcome String) (created : Outcome Connection) (m : String → Action Channel A)
      → Closes (named name (λ n. simply pamqp rounds table_of ticks created (m n)))
  unfolding named
  named-Closes (return n) created m a e = simply-Closes created (m n) a e
  named-Closes (raise x) created m a e = cc
  named-Closes blocked created m a e = cc
  named-Closes no_fuel created m a e = cc

-- The functions, with their arguments.
pub data Call : Type 0 where
  consumes :
      (parts more : ℕ) (consumer_tag : String) (queue_name : Option String) (no_ack : Bool)
      (prefetch priority : Option ℕ)
      → Call
  gets : (parts : ℕ) (consumer_tag : String) (queue_name : Option String) → Call
  publishes :
      Convert
      → (ℕ → String)
      → (uuid : String) (now : ℕ) (exchange_name routing_key : Option String) → Option BodyValue
      → Option Properties
      → (confirm : Bool) → Call
  creates_queue :
      (queue_name : Option String) (durable auto_delete : Bool)
      (max_length message_ttl expires : Option ℕ)
      (dead_letter_exchange dead_letter_routing_key : Option String)
      → Option (List (String × Value))
      → Call
  deletes_queue deletes_exchange : (name : Option String) → Call
  creates_direct creates_fanout creates_headers creates_topic :
      (exchange_name : Option String) (durable : Bool) → Call

-- The result but for the value that was returned.
forget_value : {A : Type 0} → Outcome A → Outcome (Unit {0})
forget_value (return a) = return tt
forget_value (raise e) = raise e
forget_value blocked = blocked
forget_value no_fuel = no_fuel

abbrev forget : {A : Type 0} → Result A → Result (Unit {0})
forget r = (forget_value r.0, r.1)

forget-Closes :
    {A : Type 0} (o : Outcome A) (made : Option Connection)
    → Closes (o, made)
    → forget_value o ≡ return tt
    → HasClosed made
unfolding forget_value
forget-Closes (return a) made h e = h a refl
forget-Closes (raise x) made h e = cc
forget-Closes blocked made h e = cc
forget-Closes no_fuel made h e = cc

module _ (pamqp : Pamqp) (rounds : ℕ) (table_of : Value → List (String × Bool)) (ticks : List Tick)
    (created : Outcome Connection) where
  unfoldable pub perform : Call → Result (Unit {0})
  unfolding forget_value
  perform (consumes p n t q a f i) =
      forget (consume pamqp rounds table_of ticks created p n t q a f i)
  perform (gets p t q) = forget (get pamqp rounds table_of ticks created p t q)
  perform (publishes v d u n e k b p c) =
      forget (publish pamqp rounds table_of ticks created v d u n e k b p c)
  perform (creates_queue q d a m t x e k args) =
      forget (create_queue pamqp rounds table_of ticks created q d a m t x e k args)
  perform (deletes_queue q) = forget (delete_queue pamqp rounds table_of ticks created q)
  perform (deletes_exchange e) = forget (delete_exchange pamqp rounds table_of ticks created e)
  perform (creates_direct e d) =
      forget (create_direct_exchange pamqp rounds table_of ticks created e d)
  perform (creates_fanout e d) =
      forget (create_fanout_exchange pamqp rounds table_of ticks created e d)
  perform (creates_headers e d) =
      forget (create_headers_exchange pamqp rounds table_of ticks created e d)
  perform (creates_topic e d) =
      forget (create_topic_exchange pamqp rounds table_of ticks created e d)

  named_call :
      {A : Type 0} (name : Outcome String) (m : String → Action Channel A)
      → let r = named name (λ n. simply pamqp rounds table_of ticks created (m n)) in
        forget_value r.0 ≡ return tt → HasClosed r.1
  named_call name m e =
      forget-Closes _ _ (named-Closes pamqp rounds table_of ticks name created m) e

  -- Whatever the server and the other threads do: if one of the functions returns, it has made a
  -- connection, and the connection is closed.
  pub perform-HasClosed : (c : Call) → (perform c).0 ≡ return tt → HasClosed (perform c).1
  unfolding perform consume get publish create_queue delete_queue create_exchange
      create_direct_exchange create_fanout_exchange create_headers_exchange create_topic_exchange
      delete_exchange
  perform-HasClosed (consumes p n t q a f i) h = named_call (validate_name q "queue") _ h
  perform-HasClosed (gets p t q) h = named_call (validate_name q "queue") _ h
  perform-HasClosed (publishes v d u n e k b p c) h =
      forget-Closes _ _ (simply-Closes pamqp rounds table_of ticks created _) h
  perform-HasClosed (creates_queue q d a m t x e k args) h =
      named_call (validate_name q "queue") _ h
  perform-HasClosed (deletes_queue q) h = named_call (validate_name q "queue") _ h
  perform-HasClosed (deletes_exchange e) h = named_call (validate_name e "exchange") _ h
  perform-HasClosed (creates_direct e d) h = named_call (validate_name e "exchange") _ h
  perform-HasClosed (creates_fanout e d) h = named_call (validate_name e "exchange") _ h
  perform-HasClosed (creates_headers e d) h = named_call (validate_name e "exchange") _ h
  perform-HasClosed (creates_topic e d) h = named_call (validate_name e "exchange") _ h
