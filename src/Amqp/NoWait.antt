-- ===== src/Amqp/NoWait.antt =====
-- Commands of the adapter that are sent with `nowait` (rabbitpy/amqp.py), which asks the server not to
-- answer.
use rabbitpy.Prelude.{ℕ, ◌<◌, ◌≡◌, refl, Bool, true, false, [], ◌∷◌, ◌++◌}
use rabbitpy.Action.{blocked}
use rabbitpy.Frame.{Frame, Pamqp, class_of}
use rabbitpy.Channel.{Channel}
use rabbitpy.Channel.Writes.{wrote}
use rabbitpy.Channel.Wait.Order.{IsCalm, quiet_for}
use rabbitpy.Channel.Wait.NoAnswer.{Blocked, rpc-Blocked}
use rabbitpy.Channel.Api.{channel_rpc}
use rabbitpy.Amqp.{Adapter, command}
use rabbitpy.Amqp.Commands.{
  Operation, acks, nacks, rejects, gets, declares_exchange, deletes_exchange, binds_exchange,
  unbinds_exchange, binds_queue, declares_queue, deletes_queue, purges, sends, is_unanswered,
  perform, perform-command,
}

-- The argument `nowait`, where a command has it.
abbrev pub nowait_of : Operation → Bool
nowait_of (declares_exchange e k p d a i nowait t) = nowait
nowait_of (deletes_exchange e u nowait) = nowait
nowait_of (binds_exchange d s k nowait t) = nowait
nowait_of (unbinds_exchange d s k nowait t) = nowait
nowait_of (binds_queue q e k nowait t) = nowait
nowait_of (declares_queue q p d e a nowait t) = nowait
nowait_of (deletes_queue q u e nowait) = nowait
nowait_of (purges q nowait) = nowait
nowait_of o = false

nowait-answered : (o : Operation) → nowait_of o ≡ true → is_unanswered o ≡ false
nowait-answered (acks n m) h = cc
nowait-answered (nacks n m r) h = cc
nowait-answered (rejects n r) h = cc
nowait-answered (gets q a) h = refl
nowait-answered o h = refl

channel_rpc-Blocked :
    (pamqp : Pamqp) (rounds n : ℕ) (frame : Frame) (c : Channel)
    → IsCalm c
    → pamqp.synchronous (class_of frame) ≡ true
    → c.read_queue ≡ []
    → c.schedule ≡ quiet_for n
    → n < rounds
    → Blocked (wrote (frame ∷ []) c) (channel_rpc pamqp rounds frame c)
unfolding channel_rpc
channel_rpc-Blocked pamqp rounds n frame c h sync q t f =
    rw h.open_state (rpc-Blocked pamqp rounds n frame c h sync q t f)

-- A command with `nowait` on a calm channel with an empty read queue, of a class that pamqp calls
-- synchronous, while the server does as it was asked and sends nothing: the frame is queued, and the
-- command never returns, however long the other threads stay quiet.
pub nowait-blocks :
    (pamqp : Pamqp) (rounds n : ℕ) (o : Operation) (s : Adapter)
    → nowait_of o ≡ true
    → pamqp.synchronous (class_of (sends o)) ≡ true
    → IsCalm s.channel
    → s.channel.read_queue ≡ []
    → s.channel.schedule ≡ quiet_for n
    → n < rounds
    → let r = perform pamqp rounds o s in
      (r.0 ≡ blocked)
      × (r.1.channel.write_queue ≡ s.channel.write_queue ++ (s.channel.channel_id, sends o) ∷ [])
unfolding command
nowait-blocks pamqp rounds n o s w sync c q t f =
    let b = channel_rpc-Blocked pamqp rounds n (sends o) s.channel c sync q t f in
    rw (perform-command pamqp rounds o (nowait-answered o w), b.waits) (refl, b.written)
