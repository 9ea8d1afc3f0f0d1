-- ===== src/Exchange.antt =====
-- rabbitpy/exchange.py: the commands on an exchange, with `_rpc` of the base class in
-- rabbitpy/base.py. A source is known by its name; the four subclasses set the type.
pub mod Commands
mod Tests
use rabbitpy.Prelude.{ℕ, Bool, true, false, String, Option, none, some, List, [], ◌∷◌}
use rabbitpy.Action.{Action, pure, zoom, ◌>>=◌, ◌>>◌}
use rabbitpy.Frame.{Frame, FrameClass, Pamqp, Value}
use rabbitpy.Channel.{Channel}
use rabbitpy.Channel.Api.{channel_rpc}

pub record Exchange : Type 0 where
  pub channel : Channel
  pub name : String
  pub type : String
  pub durable : Bool
  pub auto_delete : Bool
  pub arguments : List (String × Value)

-- The constructor of Exchange; those of DirectExchange and its kin fix the type.
exchange :
    Channel
    → (name type : String) (durable auto_delete : Bool) → Option (List (String × Value))
    → Exchange
exchange channel name type durable auto_delete arguments = record {
  channel = channel;
  name = name;
  type = type;
  durable = durable;
  auto_delete = auto_delete;
  arguments = elim arguments [ none ↦ [] | some table ↦ table ];
}

-- The constructors of the subclasses, by channel, name, durable, auto_delete and arguments.
abbrev pub Constructor : Type 0
Constructor = Channel → String → Bool → Bool → Option (List (String × Value)) → Exchange

unfoldable pub direct_exchange : Constructor
unfolding exchange
direct_exchange channel name = exchange channel name "direct"

unfoldable pub fanout_exchange : Constructor
unfolding exchange
fanout_exchange channel name = exchange channel name "fanout"

unfoldable pub headers_exchange : Constructor
unfolding exchange
headers_exchange channel name = exchange channel name "headers"

unfoldable pub topic_exchange : Constructor
unfolding exchange
topic_exchange channel name = exchange channel name "topic"

declare_frame : (passive : Bool) → Exchange → Frame
declare_frame passive s =
    Frame.declare_exchange s.name s.type s.durable passive s.auto_delete s.arguments

module _ (pamqp : Pamqp) (rounds : ℕ) where
  -- A command whose answer is not looked at.
  command : (Exchange → Frame) → Action Exchange Unit
  unfolding channel_rpc
  command frame s =
      (zoom (λ s. s.channel) (λ c s. record s { channel = c }) (channel_rpc pamqp rounds (frame s))
          >> pure tt)
        s

  unfoldable pub bind : (source : String) → (routing_key : Option String) → Action Exchange Unit
  unfolding command
  bind source routing_key =
      command (λ s. Frame.bind_exchange FrameClass.exchange_bind s.name source routing_key)

  unfoldable pub declare : (passive : Bool) → Action Exchange Unit
  unfolding command declare_frame
  declare passive = command (declare_frame passive)

  unfoldable pub delete : (if_unused : Bool) → Action Exchange Unit
  unfolding command
  delete if_unused = command (λ s. Frame.delete_exchange s.name if_unused)

  unfoldable pub unbind : (source : String) → (routing_key : Option String) → Action Exchange Unit
  unfolding command
  unbind source routing_key =
      command (λ s. Frame.bind_exchange FrameClass.exchange_unbind s.name source routing_key)
