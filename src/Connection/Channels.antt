-- ===== src/Connection/Channels.antt =====
-- rabbitpy/connection.py, `channel` and `capabilities`: a new channel gets a number and the server's
-- capabilities, is added to the connection and is opened; with the constructor of
-- rabbitpy/channel.py. The dictionary of channels holds each with its number. The values of the
-- server's properties are pamqp's, so what a table of truth values among them holds is the parameter
-- `table_of`; `ticks` is what the other threads do to the new channel.
pub mod Added
mod Tests
use rabbitpy.Prelude.{ℕ, Bool, true, false, String, Option, none, some, List, [], ◌∷◌, ◌++◌, lookup}
use rabbitpy.Exceptions.{attribute_error}
use rabbitpy.Action.{Action, Outcome, return, raise, blocked, no_fuel, ◌>>=◌}
use rabbitpy.Stateful
use rabbitpy.Frame.{Pamqp, Value}
use rabbitpy.Channel
use rabbitpy.Channel.{Channel, Tick}
use rabbitpy.Channel.Api
use rabbitpy.Connection.{get_next_channel_id}
use rabbitpy.Connection.State.{Connection, lend, take_back}

-- The keys of the dictionary.
abbrev pub channel_ids : List (ℕ × Channel) → List ℕ
channel_ids [] = []
channel_ids ((id, c) ∷ rest) = id ∷ channel_ids rest

-- `properties.get('capabilities', dict())`
pub capabilities_in : (Value → List (String × Bool)) → List (String × Value) → List (String × Bool)
capabilities_in table_of properties = elim (lookup "capabilities" properties) [
  | none ↦ []
  | some value ↦ table_of value
]

-- `capabilities`: neither channel 0 nor its properties are there before the negotiation, and None has
-- no attributes.
pub capabilities : (Value → List (String × Bool)) → Connection → Outcome (List (String × Bool))
unfolding capabilities_in
capabilities table_of s = elim s.channel0 [
  | none ↦ raise attribute_error
  | some c ↦ elim c.properties [
    | none ↦ raise attribute_error
    | some properties ↦ return (capabilities_in table_of properties)
  ]
]

module _ (blocking_read : Bool) (ticks : List Tick) where
  -- `channel.Channel(...)`
  unfoldable pub new_channel : List (String × Bool) → ℕ → Connection → Channel
  new_channel capabilities channel_id s = record {
    kind = Channel.channel;
    channel_id = channel_id;
    state = Stateful.closed_state;
    blocking_read = blocking_read;
    waiting = false;
    interrupt = none;
    consumers = [];
    publisher_confirms = false;
    capabilities = capabilities;
    maximum_frame_size = elim s.max_frame_size [ none ↦ 0 | some size ↦ size ];
    connection_state = s.state;
    exceptions = s.exceptions;
    read_queue = [];
    write_queue = s.write_queue;
    wakeups = s.wakeups;
    schedule = ticks;
  }

  module _ (pamqp : Pamqp) (rounds : ℕ) where
    -- `return self._channels[channel_id]`, once the channel is open
    numbered : ℕ → Outcome (Unit {0}) → Outcome ℕ
    numbered channel_id (return a) = return channel_id
    numbered channel_id (raise e) = raise e
    numbered channel_id blocked = blocked
    numbered channel_id no_fuel = no_fuel

    -- The channel with this number, once the server's capabilities are known.
    add_and_open : ℕ → List (String × Bool) → Action Connection ℕ
    unfolding numbered new_channel
    add_and_open channel_id capabilities s =
        let r = Api.open_channel pamqp rounds (lend s (new_channel capabilities channel_id s)) in
        (
          numbered channel_id r.0,
          take_back r.1 (record s { channels = s.channels ++ (channel_id, r.1) ∷ [] }),
        )

    open_new : (Value → List (String × Bool)) → Outcome ℕ → Action Connection ℕ
    unfolding add_and_open capabilities
    open_new table_of (return channel_id) =
        (λ s. (capabilities table_of s, s)) >>= add_and_open channel_id
    open_new table_of (raise e) = λ s. (raise e, s)
    open_new table_of blocked = λ s. (blocked, s)
    open_new table_of no_fuel = λ s. (no_fuel, s)

    -- `channel`, which returns the number of the channel
    unfoldable pub channel : (Value → List (String × Bool)) → Action Connection ℕ
    unfolding open_new
    channel table_of s = elim s.channel0 [
      | none ↦ (raise attribute_error, s)
      | some c ↦ open_new table_of (get_next_channel_id c.max_channels (channel_ids s.channels)) s
    ]
