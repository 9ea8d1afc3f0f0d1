-- ===== src/Amqp/Tests.antt =====
-- Runs of the adapter (rabbitpy/amqp.py).
use rabbitpy.Prelude.{
  ◌≡◌, refl, true, false, insert, none, List, [], ◌∷◌, ◌++◌, map, inl, inr, arith,
}
use rabbitpy.Action.{return, raise, blocked}
use rabbitpy.Exceptions.{not_consuming}
use rabbitpy.Frame
use rabbitpy.Frame.{Frame, FrameClass, Pamqp}
use rabbitpy.Frame.Sample.{sample}
use rabbitpy.Channel.Sample.{open_channel}
use rabbitpy.Channel
use rabbitpy.Channel.Wait
use rabbitpy.Channel.Wait.{validate_frame_type}
use rabbitpy.Channel.Wait.Order.{quiet_for}
use rabbitpy.Channel.Wait.Answer.{arrives}
use rabbitpy.Channel.Api.{channel_rpc}
use rabbitpy.Channel.Api.Commands.{IsAnswer}
use rabbitpy.Amqp.{Adapter}
use rabbitpy.Amqp.Consumer
use rabbitpy.Amqp.Commands.{
  Operation, acks, declares_queue, binds_queue, selects, sends, perform, run, run-writes,
}
use rabbitpy.Amqp.NoWait.{nowait-blocks}

abbrev operations : List Operation
operations =
    selects
    ∷ declares_queue "jobs" false true false false false none
    ∷ acks 7 true
    ∷ binds_queue "jobs" "logs" "eu.*" false none
    ∷ []

abbrev replies : List Frame
replies =
    Frame.bare FrameClass.tx_select_ok
    ∷ Frame.declared_queue "jobs" 0 0
    ∷ Frame.bare FrameClass.queue_bind_ok
    ∷ []

abbrev adapter : List Frame → Adapter
adapter frames = record {
  channel = open_channel 4 (map (λ f. arrives (f ∷ [])) frames);
  id = 5;
  consumer_tag = "rabbitpy.1.5";
  consuming = false;
}

IsAnswer-selects : IsAnswer sample (sends selects) (Frame.bare FrameClass.tx_select_ok)
unfolding validate_frame_type Frame.class_of
IsAnswer-selects = record { waits = refl; plain = refl; fits = refl }

IsAnswer-declares :
    IsAnswer sample
      (sends (declares_queue "jobs" false true false false false none))
      (Frame.declared_queue "jobs" 0 0)
unfolding validate_frame_type Frame.class_of
IsAnswer-declares = record { waits = refl; plain = refl; fits = refl }

IsAnswer-binds :
    IsAnswer sample
      (sends (binds_queue "jobs" "logs" "eu.*" false none))
      (Frame.bare FrameClass.queue_bind_ok)
unfolding validate_frame_type Frame.class_of
IsAnswer-binds = record { waits = refl; plain = refl; fits = refl }

run-writes_example :
    let r = run sample 3 operations (adapter replies) in
    (r.0 ≡ return tt) × (r.1.channel.write_queue ≡ [] ++ map (λ o. (1, sends o)) operations)
run-writes_example =
    run-writes sample 2 operations (adapter replies)
      (record { exceptions = refl; interrupt = refl; open_state = refl; connected = refl }) refl
      (inr (
        refl,
        (
          _,
          _,
          refl,
          IsAnswer-selects,
          inr (
            refl,
            (
              _,
              _,
              refl,
              IsAnswer-declares,
              inl (refl, inr (refl, (_, _, refl, IsAnswer-binds, tt))),
            ),
          ),
        ),
      ))

-- A declaration that the server is asked not to answer, with three rounds in which nothing happens.
nowait-blocks_example :
    let s : Adapter = record (adapter []) { channel = open_channel 4 (quiet_for 3) } in
    let r = perform sample 4 (declares_queue "jobs" false true false false true none) s in
    (r.0 ≡ blocked)
    × (r.1.channel.write_queue
        ≡ [] ++ (1, sends (declares_queue "jobs" false true false false true none)) ∷ [])
unfolding Frame.class_of
nowait-blocks_example =
    nowait-blocks sample 4 3 (declares_queue "jobs" false true false false true none)
      (record (adapter []) { channel = open_channel 4 (quiet_for 3) }) refl refl
      (record { exceptions = refl; interrupt = refl; open_state = refl; connected = refl }) refl
      refl (omega arith)

cancel_idle : (Consumer.basic_cancel false sample 3 "" false (adapter [])).0 ≡ raise not_consuming
unfolding Consumer.basic_cancel
cancel_idle = refl

-- The tag is the adapter's own, and the consumer is known to the channel before it is answered.
begin_registers :
    let r =
      Consumer.begin false sample 3 "jobs" "" false true false false none
        (adapter (Frame.bare FrameClass.basic_consume_ok ∷ [])) in
    (r.0 ≡ return "rabbitpy.1.5")
    × (r.1.consuming ≡ true)
    × (r.1.channel.consumers
        ≡ ("rabbitpy.1.5", record { owner = 5; own_tag = "rabbitpy.1.5"; no_ack = true }) ∷ [])
unfolding Consumer.begin channel_rpc Wait.rpc Channel.write_frame Frame.class_of
    Wait.read_from_queue Channel.check_for_rpc_request validate_frame_type Wait.normalize insert
begin_registers = (refl, refl, refl)
