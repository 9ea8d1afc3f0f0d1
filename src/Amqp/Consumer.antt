-- ===== src/Amqp/Consumer.antt =====
-- rabbitpy/amqp.py: `basic_consume` and `basic_cancel`. The generator that `basic_consume` returns is
-- modelled by its parts: `begin` up to its loop, `next` from one message to the next or to the end,
-- and `close`, its `finally`. `pypy` is `utils.PYPY`.
use rabbitpy.Prelude.{
  ℕ, if◌then◌else◌, Bool, true, false, not, ◌&&◌, String, Option, none, some, str_eq, insert,
}
use rabbitpy.Exceptions.{not_consuming}
use rabbitpy.Action.{
  Action, Outcome, return, raise, blocked, no_fuel, pure, throw, modify, when, ◌>>◌,
}
use rabbitpy.Frame
use rabbitpy.Frame.{Frame, Pamqp}
use rabbitpy.Channel.Api.{channel_rpc, cancel_consumer}
use rabbitpy.Channel.Content.{Received, consume_message}
use rabbitpy.Amqp.{Adapter, Table, on_channel}

set_consuming : Bool → Action Adapter Unit
set_consuming consuming = modify (λ s. record s { consuming = consuming })

-- The tag that was given, or the adapter's own.
or_own : String → Adapter → String
or_own consumer_tag s = if str_eq consumer_tag "" then s.consumer_tag else consumer_tag

module _ (pypy : Bool) (pamqp : Pamqp) (rounds : ℕ) where
  unfoldable pub basic_cancel : (consumer_tag : String) (nowait : Bool) → Action Adapter Unit
  unfolding set_consuming or_own
  basic_cancel consumer_tag nowait s =
      if pypy && not s.consuming
      then (return tt, s)
      else if not s.consuming
      then (raise not_consuming, s)
      else (on_channel (cancel_consumer pamqp rounds (or_own consumer_tag s) nowait)
            >> set_consuming false)
          s

  register : (consumer_tag : String) (no_ack : Bool) → Action Adapter Unit
  register consumer_tag no_ack s =
      on_channel
        (modify (λ c. record c {
          consumers =
              insert consumer_tag
                (record { owner = s.id; own_tag = s.consumer_tag; no_ack = no_ack }) c.consumers;
        }))
        s

  start :
      (queue consumer_tag : String) (no_local no_ack exclusive nowait : Bool)
      → Table
      → Action Adapter String
  unfolding register set_consuming
  start queue consumer_tag no_local no_ack exclusive nowait arguments =
      register consumer_tag no_ack
      >> on_channel (
          channel_rpc pamqp rounds (
            Frame.built
              (Frame.consume_with 0 queue consumer_tag no_local no_ack exclusive nowait arguments)))
      >> set_consuming true
      >> pure consumer_tag

  -- `basic_consume` up to its `try`, with the tag that it uses
  unfoldable pub begin :
      (queue consumer_tag : String) (no_local no_ack exclusive nowait : Bool)
      → Table
      → Action Adapter String
  unfolding or_own start
  begin queue consumer_tag no_local no_ack exclusive nowait arguments s =
      start queue (or_own consumer_tag s) no_local no_ack exclusive nowait arguments s

  -- The `finally`.
  unfoldable pub close : (consumer_tag : String) → Action Adapter Unit
  unfolding basic_cancel
  close consumer_tag s = when s.consuming (basic_cancel consumer_tag false) s

  -- The `finally` behind what the loop ended with.
  ending : (consumer_tag : String) → Outcome (Unit {0}) → Action Adapter (Option Received)
  unfolding close
  ending consumer_tag (return a) = close consumer_tag >> pure none
  ending consumer_tag (raise e) = close consumer_tag >> throw e
  ending consumer_tag blocked = λ s. (blocked, s)
  ending consumer_tag no_fuel = λ s. (no_fuel, s)

  -- What the loop does with a message, with None, and with an exception.
  after_message :
      (consumer_tag : String) → Outcome (Option Received) → Action Adapter (Option Received)
  unfolding ending close
  after_message consumer_tag (return (some message)) = pure (some message)
  after_message consumer_tag (return none) =
      λ s. let r = close consumer_tag s in ending consumer_tag r.0 r.1
  after_message consumer_tag (raise e) = ending consumer_tag (raise e)
  after_message consumer_tag blocked = ending consumer_tag blocked
  after_message consumer_tag no_fuel = ending consumer_tag no_fuel

  -- The next message, or None at the end of the generator.
  unfoldable pub next : (parts : ℕ) (consumer_tag : String) → Action Adapter (Option Received)
  unfolding after_message
  next parts consumer_tag s =
      if s.consuming
      then (let r = on_channel (consume_message pamqp rounds parts) s in
          after_message consumer_tag r.0 r.1)
      else (return none, s)
