-- ===== src/Amqp.antt =====
-- rabbitpy/amqp.py: the adapter, whose methods are the commands of AMQP, with ChannelWriter of
-- rabbitpy/base.py. Consumer has `basic_consume` and `basic_cancel`. Tables of arguments are
-- optional, as the defaults are.
pub mod Consumer
pub mod Commands
pub mod NoWait
mod Tests
use rabbitpy.Prelude.{ℕ, Bool, false, String, Option, none, some, List, []}
use rabbitpy.Action.{Action, Outcome, return, raise, blocked, no_fuel, pure, zoom, ◌>>=◌, ◌>>◌}
use rabbitpy.Frame
use rabbitpy.Frame.{Frame, FrameClass, Pamqp, Value}
use rabbitpy.Channel.{Channel, write_frame}
use rabbitpy.Channel.Api.{channel_rpc}
use rabbitpy.Message.Properties.{Convert, Properties}
use rabbitpy.Message.Create.{BodyValue, create}
use rabbitpy.Message.Publish.{Message, Attached, publish}

-- `id` is Python's id of the object.
pub record Adapter : Type 0 where
  pub id : ℕ
  pub channel : Channel
  pub consumer_tag : String
  pub consuming : Bool

-- A table of arguments, or None.
abbrev pub Table : Type 0
Table = Option (List (String × Value))

abbrev pub on_channel : {A : Type 0} → Action Channel A → Action Adapter A
on_channel = zoom (λ s. s.channel) (λ c s. record s { channel = c })

-- `_write_frame`
write : Frame → Action Adapter Unit
write frame_value = on_channel (write_frame frame_value)

unfoldable pub basic_ack : (delivery_tag : ℕ) (multiple : Bool) → Action Adapter Unit
unfolding write
basic_ack delivery_tag multiple = write (Frame.ack delivery_tag multiple)

unfoldable pub basic_nack : (delivery_tag : ℕ) (multiple requeue : Bool) → Action Adapter Unit
unfolding write
basic_nack delivery_tag multiple requeue = write (Frame.nack delivery_tag multiple requeue)

unfoldable pub basic_reject : (delivery_tag : ℕ) (requeue : Bool) → Action Adapter Unit
unfolding write
basic_reject delivery_tag requeue = write (Frame.reject delivery_tag requeue)

module _ (pamqp : Pamqp) (rounds : ℕ) where
  -- `self._rpc(...)`, whose answer is not looked at
  pub command : Frame → Action Adapter Unit
  command frame_value = on_channel (channel_rpc pamqp rounds frame_value) >> pure tt

  unfoldable pub basic_get : (queue : String) (no_ack : Bool) → Action Adapter Unit
  unfolding command
  basic_get queue no_ack = command (Frame.get queue no_ack)

  unfoldable pub basic_qos :
      (prefetch_size prefetch_count : ℕ) (global_flag : Bool) → Action Adapter Unit
  unfolding command
  basic_qos prefetch_size prefetch_count global_flag =
      command (Frame.qos prefetch_size prefetch_count global_flag)

  unfoldable pub basic_recover : (requeue : Bool) → Action Adapter Unit
  unfolding command
  basic_recover requeue = command (Frame.recover requeue)

  unfoldable pub confirm_select : Action Adapter Unit
  unfolding command
  confirm_select = command (Frame.bare FrameClass.confirm_select)

  unfoldable pub exchange_declare :
      (exchange exchange_type : String) (passive durable auto_delete internal nowait : Bool)
      → Table
      → Action Adapter Unit
  unfolding command
  exchange_declare exchange exchange_type passive durable auto_delete internal nowait arguments =
      command (
        Frame.built (
          Frame.declare_exchange_with 0 exchange exchange_type passive durable auto_delete internal
            nowait arguments))

  unfoldable pub exchange_delete :
      (exchange : String) (if_unused nowait : Bool) → Action Adapter Unit
  unfolding command
  exchange_delete exchange if_unused nowait =
      command (Frame.built (Frame.delete_exchange_with 0 exchange if_unused nowait))

  unfoldable pub exchange_bind :
      (destination source routing_key : String) (nowait : Bool) → Table → Action Adapter Unit
  unfolding command
  exchange_bind destination source routing_key nowait arguments =
      command
        (Frame.built (Frame.bind_exchange_with 0 destination source routing_key nowait arguments))

  unfoldable pub exchange_unbind :
      (destination source routing_key : String) (nowait : Bool) → Table → Action Adapter Unit
  unfolding command
  exchange_unbind destination source routing_key nowait arguments =
      command
        (Frame.built (Frame.unbind_exchange_with 0 destination source routing_key nowait arguments))

  unfoldable pub queue_bind :
      (queue exchange routing_key : String) (nowait : Bool) → Table → Action Adapter Unit
  unfolding command
  queue_bind queue exchange routing_key nowait arguments =
      command (Frame.built (Frame.bind_queue_with 0 queue exchange routing_key nowait arguments))

  unfoldable pub queue_declare :
      (queue : String) (passive durable exclusive auto_delete nowait : Bool)
      → Table
      → Action Adapter Unit
  unfolding command
  queue_declare queue passive durable exclusive auto_delete nowait arguments = command (
      Frame.built
        (Frame.declare_queue_with 0 queue passive durable exclusive auto_delete nowait arguments))

  unfoldable pub queue_delete :
      (queue : String) (if_unused if_empty nowait : Bool) → Action Adapter Unit
  unfolding command
  queue_delete queue if_unused if_empty nowait =
      command (Frame.built (Frame.delete_queue_with 0 queue if_unused if_empty nowait))

  unfoldable pub queue_purge : (queue : String) (nowait : Bool) → Action Adapter Unit
  unfolding command
  queue_purge queue nowait = command (Frame.built (Frame.purge_queue_with 0 queue nowait))

  unfoldable pub queue_unbind : (queue exchange routing_key : String) → Table → Action Adapter Unit
  unfolding command
  queue_unbind queue exchange routing_key arguments =
      command (Frame.built (Frame.unbind_queue_with 0 queue exchange routing_key arguments))

  unfoldable pub tx_select : Action Adapter Unit
  unfolding command
  tx_select = command (Frame.bare FrameClass.tx_select)

  unfoldable pub tx_commit : Action Adapter Unit
  unfolding command
  tx_commit = command (Frame.bare FrameClass.tx_commit)

  unfoldable pub tx_rollback : Action Adapter Unit
  unfolding command
  tx_rollback = command (Frame.bare FrameClass.tx_rollback)

  -- `msg.publish(...)`, on the message that was made
  publish_message :
      Convert
      → Outcome Message
      → (exchange routing_key : String) (mandatory immediate : Bool) → Action Adapter (Option Bool)
  publish_message convert (return message) exchange routing_key mandatory immediate s =
      let r =
        publish convert pamqp rounds exchange (some routing_key) mandatory immediate
          (record { message = message; channel = s.channel }) in
      (r.0, record s { channel = r.1.channel })
  publish_message convert (raise e) exchange routing_key mandatory immediate s = (raise e, s)
  publish_message convert blocked exchange routing_key mandatory immediate s = (blocked, s)
  publish_message convert no_fuel exchange routing_key mandatory immediate s = (no_fuel, s)

  unfoldable pub basic_publish :
      Convert
      → (dumps : ℕ → String) (uuid : String) (now : ℕ) (exchange routing_key : String) → BodyValue
      → Option Properties
      → (mandatory immediate : Bool) → Action Adapter (Option Bool)
  unfolding publish_message
  basic_publish convert dumps uuid now exchange routing_key body properties mandatory immediate =
      let given : Properties = elim properties [ none ↦ [] | some p ↦ p ] in
      publish_message convert (create convert dumps uuid now body (some given) false false) exchange
        routing_key mandatory immediate
