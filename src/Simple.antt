-- ===== src/Simple.antt =====
-- rabbitpy/simple.py: SimpleChannel, and the functions that do one thing on a channel of their own.
--
-- `created` is the connection as its constructor has set it up from the URI, before it connects, or
-- the exception that the URI was (Connection/Url). `table_of` is as in
-- Connection/Channels, and `ticks` is what the other threads do to the channel. The channel is known by its number.
pub mod Context
pub mod Functions
pub mod Calls
pub mod Session
pub mod Published
mod Tests
use rabbitpy.Prelude.{
  ℕ, if◌then◌else◌, Bool, true, false, not, String, Option, none, some, List, [], str_eq,
}
use rabbitpy.Exceptions.{Exception, value_error, key_error}
use rabbitpy.Action.{
  Action, Outcome, return, raise, blocked, no_fuel, pure, throw, when, ◌>>=◌, ◌>>◌,
}
use rabbitpy.Stateful.{is_closed}
use rabbitpy.Frame.{Pamqp, PropertyValue, Value}
use rabbitpy.Channel.{Channel, Tick}
use rabbitpy.Channel.Api
use rabbitpy.Channel.Content.{Received}
use rabbitpy.Connection.State.{Connection, lend, take_back}
use rabbitpy.Connection.Opening.{connect}
use rabbitpy.Connection.Closing.{close, close_channel, find, put}
use rabbitpy.Connection.Channels.{channel}
use rabbitpy.Exchange
use rabbitpy.Exchange.{Exchange}
use rabbitpy.Message.Properties.{Convert, Properties}
use rabbitpy.Message.Create.{BodyValue, create}
use rabbitpy.Message.Publish
use rabbitpy.Message.Publish.{Message}
use rabbitpy.Queue
use rabbitpy.Queue.{new_queue}
use rabbitpy.Queue.Consuming

-- An action on the channel with this number.
unfoldable pub on_channel : {A : Type 0} → ℕ → Action Channel A → Action Connection A
on_channel id m s = elim (find id s.channels) [
  | none ↦ (raise (key_error "channel"), s)
  | some c ↦
      let r = m (lend s c) in (r.0, take_back r.1 (record s { channels = put id r.1 s.channels }))
]

-- `self.channel.closed`
channel_closed : ℕ → Connection → Bool
channel_closed id s = elim (find id s.channels) [ none ↦ true | some c ↦ is_closed c.state ]

module _ (pamqp : Pamqp) (rounds : ℕ) where
  close_channel_if : ℕ → Action Connection Unit
  unfolding channel_closed
  close_channel_if id s = when (not (channel_closed id s)) (close_channel pamqp rounds id) s

  close_connection_if : Action Connection Unit
  close_connection_if s = when (not (is_closed s.state)) (close pamqp rounds) s

  -- `__exit__` up to its raise
  unfoldable pub closing : ℕ → Action Connection Unit
  unfolding close_channel_if close_connection_if
  closing id = close_channel_if id >> close_connection_if

  -- `__exit__`, by how the block ended.
  pub leave : {A : Type 0} → ℕ → Outcome A → Action Connection A
  unfolding closing
  leave id (return a) = closing id >> pure a
  leave id (raise e) = closing id >> throw e
  leave id blocked = λ s. (blocked, s)
  leave id no_fuel = λ s. (no_fuel, s)

  module _ (table_of : Value → List (String × Bool)) (ticks : List Tick) where
    -- `__enter__`
    unfoldable pub enter : Action Connection ℕ
    enter = connect pamqp rounds >> channel false ticks pamqp rounds table_of

    -- `with SimpleChannel(uri) as channel`, behind the creation of the connection
    unfoldable pub with_channel : {A : Type 0} → (ℕ → Action Connection A) → Action Connection A
    unfolding enter leave
    with_channel body = do id ← enter; λ s. leave id (body id s).0 (body id s).1
