-- ===== src/Queue/Consuming.antt =====
-- rabbitpy/amqp_queue.py: how messages are taken from a queue. The generator that `consume` returns
-- is modelled by its parts: `begin` up to its loop, `next` from one message to the next or to the
-- end, and `close`, which leaves it where it stands. `pypy` is `utils.PYPY`.
pub mod Cancelled
mod Tests
use rabbitpy.Prelude.{
  ℕ, ◌==◌, if◌then◌else◌, Bool, true, false, not, ◌&&◌, String, Option, none, some, List, [], ◌∷◌,
  str_eq,
}
use rabbitpy.Exceptions.{Exception, not_consuming}
use rabbitpy.Action.{
  Action, Outcome, return, raise, blocked, no_fuel, pure, throw, modify, when, zoom, ◌>>=◌, ◌>>◌,
}
use rabbitpy.Frame.{Frame, Pamqp}
use rabbitpy.Channel.{Channel, Registration, write_frame}
use rabbitpy.Channel.Api
use rabbitpy.Channel.Content.{Received, consume_message, get_message}
use rabbitpy.Queue.{Queue}

-- A queue with what its consuming needs; `id` is Python's id of the object.
pub record Consumer : Type 0 where
  pub id : ℕ
  pub queue : Queue
  pub consumer_tag : String
  pub consuming : Bool

on_channel : {A : Type 0} → Action Channel A → Action Consumer A
on_channel =
    zoom (λ s. s.queue.channel) (λ c s. record s { queue = record s.queue { channel = c } })

set_consuming : Bool → Action Consumer Unit
set_consuming consuming = modify (λ s. record s { consuming = consuming })

-- The registrations of this object see its tag change.
retag : (id : ℕ) (tag : String) → List (String × Registration) → List (String × Registration)
retag id tag [] = []
retag id tag ((key, r) ∷ rest) =
    (key, if r.owner == id then record r { own_tag = tag } else r) ∷ retag id tag rest

-- `if consumer_tag: self.consumer_tag = consumer_tag`
set_tag : Option String → Action Consumer Unit
unfolding on_channel retag
set_tag none s = (return tt, s)
set_tag (some tag) s =
    if str_eq tag ""
    then (return tt, s)
    else (modify (λ s. record s { consumer_tag = tag })
          >> on_channel (modify (λ c. record c { consumers = retag s.id tag c.consumers })))
        s

module _ (pypy : Bool) (pamqp : Pamqp) (rounds : ℕ) where
  -- `if prefetch: self.channel.prefetch_count(prefetch, False)`
  prefetch_if : Option ℕ → Action Channel Unit
  prefetch_if none = pure tt
  prefetch_if (some value) = when (not (value == 0)) (Api.prefetch_count pamqp rounds value false)

  -- `_consume`
  register : (no_ack : Bool) (prefetch priority : Option ℕ) → Action Consumer Unit
  unfolding on_channel prefetch_if set_consuming
  register no_ack prefetch priority =
      on_channel (prefetch_if prefetch)
      >> (λ s.
          on_channel (Api.consume pamqp rounds s.id s.queue.name s.consumer_tag no_ack priority) s)
      >> set_consuming true

  -- `consume`, up to its `try`
  unfoldable pub begin :
      (no_ack : Bool) (prefetch priority : Option ℕ) (consumer_tag : Option String)
      → Action Consumer Unit
  unfolding set_tag register
  begin no_ack prefetch priority consumer_tag =
      set_tag consumer_tag >> register no_ack prefetch priority

  unfoldable pub stop_consuming : Action Consumer Unit
  unfolding on_channel set_consuming
  stop_consuming s =
      if pypy && not s.consuming
      then (return tt, s)
      else if not s.consuming
      then (raise not_consuming, s)
      else (on_channel (Api.cancel_consumer pamqp rounds s.consumer_tag false)
            >> set_consuming false)
          s

  -- The `finally` of the generator.
  unfoldable pub close : Action Consumer Unit
  unfolding stop_consuming
  close s = when s.consuming stop_consuming s

  -- The `finally` behind what the loop ended with.
  ending : Outcome (Unit {0}) → Action Consumer (Option Received)
  unfolding close
  ending (return a) = close >> pure none
  ending (raise e) = close >> throw e
  ending blocked = λ s. (blocked, s)
  ending no_fuel = λ s. (no_fuel, s)

  -- What the loop does with a message, with None, and with an exception.
  after_message : Outcome (Option Received) → Action Consumer (Option Received)
  unfolding ending close
  after_message (return (some message)) = pure (some message)
  after_message (return none) = λ s. let r = close s in ending r.0 r.1
  after_message (raise e) = ending (raise e)
  after_message blocked = ending blocked
  after_message no_fuel = ending no_fuel

  -- The next message, or None at the end of the generator.
  pub next : (parts : ℕ) → Action Consumer (Option Received)
  unfolding on_channel after_message
  next parts s =
      if s.consuming
      then (let r = on_channel (consume_message pamqp rounds parts) s in after_message r.0 r.1)
      else (return none, s)

  pub get : (acknowledge : Bool) (parts : ℕ) → Action Consumer (Option Received)
  unfolding on_channel
  get acknowledge parts s =
      (on_channel (write_frame (Frame.get s.queue.name (not acknowledge)))
          >> on_channel (get_message pamqp rounds parts))
        s
