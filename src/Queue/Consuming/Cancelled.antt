-- ===== src/Queue/Consuming/Cancelled.antt =====
-- A consumer that is begun and given up (rabbitpy/amqp_queue.py).
use rabbitpy.Prelude.{
  ℕ, suc, ◌≡◌, refl, Bool, true, false, ◌&&◌, String, none, List, [], ◌∷◌, ◌++◌, lookup, insert,
  delete, lookup-delete, append_assoc, arith, eq_iff,
}
use rabbitpy.Action.{return, ◌>>◌}
use rabbitpy.Frame.{Frame, FrameClass, Pamqp, class_of}
use rabbitpy.Channel.{Channel, Registration, Tick}
use rabbitpy.Channel.Writes.{wrote}
use rabbitpy.Channel.Wait.{validate_frame_type}
use rabbitpy.Channel.Wait.Order.{IsCalm, found_in}
use rabbitpy.Channel.Wait.Answer.{arrives, answers, rpc-answered}
use rabbitpy.Channel.Api.{consume}
use rabbitpy.Channel.Api.Closing.{CanCancel, cancel_consumer-answered}
use rabbitpy.Queue.Consuming.{Consumer, begin, close}

-- The channel once its Basic.Consume was answered.
abbrev registered :
    Pamqp → (owner : ℕ) (queue tag : String) (no_ack : Bool) → List Tick → Channel → Channel
registered pamqp owner queue tag no_ack later s =
    record (found_in pamqp (wrote (Frame.consume queue tag no_ack none ∷ []) s) [] later) {
      consumers = insert tag (record { owner = owner; own_tag = tag; no_ack = no_ack }) s.consumers;
    }

consume-answered :
    (pamqp : Pamqp) (rounds owner : ℕ) (queue tag : String) (no_ack : Bool) (s : Channel)
    (later : List Tick)
    → IsCalm s
    → s.read_queue ≡ []
    → s.schedule ≡ arrives (Frame.bare FrameClass.basic_consume_ok ∷ []) ∷ later
    → pamqp.synchronous FrameClass.basic_consume ≡ true
    → validate_frame_type pamqp
        (Frame.bare FrameClass.basic_consume_ok)
        (answers pamqp (Frame.consume queue tag no_ack none))
      ≡ true
    → consume pamqp (suc rounds) owner queue tag no_ack none s
      ≡ (return tt, registered pamqp owner queue tag no_ack later s)
unfolding consume class_of
consume-answered pamqp rounds owner queue tag no_ack s later c q t sync fits =
    rw
      (rpc-answered pamqp (suc rounds) (Frame.consume queue tag no_ack none) s [] []
        (Frame.bare FrameClass.basic_consume_ok) later c sync tt refl fits q t (omega arith))
      refl

and-false : (b : Bool) → (b && false) ≡ false
and-false true = refl
and-false false = refl

lookup-delete_self :
    (tag : String) (consumers : List (String × Registration))
    → lookup tag (delete tag consumers) ≡ none
lookup-delete_self tag consumers = ground (arith, eq_iff tag tag, lookup-delete tag tag consumers)

-- A calm channel that does not wait, whose server answers Basic.Consume and then Basic.Cancel.
pub record CanConsume (pamqp : Pamqp) (later : List Tick) (s : Channel) : Type 0 where
  pub calm : IsCalm s
  pub idle : s.waiting ≡ false
  pub queue : s.read_queue ≡ []
  pub schedule :
      s.schedule
      ≡ arrives (Frame.bare FrameClass.basic_consume_ok ∷ [])
        ∷ arrives (Frame.bare FrameClass.basic_cancel_ok ∷ [])
        ∷ later
  pub consume_waits : pamqp.synchronous FrameClass.basic_consume ≡ true
  pub cancel_waits : pamqp.synchronous FrameClass.basic_cancel ≡ true
  pub consume_fits :
      (queue tag : String) (no_ack : Bool)
      → validate_frame_type pamqp
          (Frame.bare FrameClass.basic_consume_ok)
          (answers pamqp (Frame.consume queue tag no_ack none))
        ≡ true
  pub cancel_fits :
      (tag : String)
      → validate_frame_type pamqp
          (Frame.bare FrameClass.basic_cancel_ok)
          (answers pamqp (Frame.cancel tag false))
        ≡ true

-- A consumer on a channel whose server answers, begun with its own tag, no prefetch and no priority,
-- and given up before a message: both steps return, Basic.Consume and Basic.Cancel are queued, the
-- channel no longer knows the tag, and the consumer is not consuming.
pub close-begin :
    (pypy : Bool) (pamqp : Pamqp) (rounds : ℕ) (no_ack : Bool) (s : Consumer) (later : List Tick)
    → CanConsume pamqp later s.queue.channel
    → let r =
        (begin pypy pamqp (suc rounds) no_ack none none none >> close pypy pamqp (suc rounds)) s in
      (r.0 ≡ return tt)
      × (r.1.consuming ≡ false)
      × (lookup s.consumer_tag r.1.queue.channel.consumers ≡ none)
      × (r.1.queue.channel.write_queue
          ≡ s.queue.channel.write_queue
            ++ (s.queue.channel.channel_id, Frame.consume s.queue.name s.consumer_tag no_ack none)
              ∷ (s.queue.channel.channel_id, Frame.cancel s.consumer_tag false)
              ∷ [])
unfolding begin close
close-begin pypy pamqp rounds no_ack s later c =
    let tag : String = s.consumer_tag in
    let ticks : List Tick = arrives (Frame.bare FrameClass.basic_cancel_ok ∷ []) ∷ later in
    let r : Channel = registered pamqp s.id s.queue.name tag no_ack ticks s.queue.channel in
    let can : CanCancel pamqp later r = record {
      calm = record {
        exceptions = c.calm.exceptions;
        interrupt = c.calm.interrupt;
        open_state = c.calm.open_state;
        connected = c.calm.connected;
      };
      idle = refl;
      queue = refl;
      schedule = refl;
      waits = c.cancel_waits;
      fits = c.cancel_fits;
    } in
    rw
      (
        consume-answered pamqp rounds s.id s.queue.name tag no_ack s.queue.channel ticks c.calm
            c.queue c.schedule c.consume_waits (c.consume_fits s.queue.name tag no_ack),
        cancel_consumer-answered pamqp rounds tag r later can,
        and-false pypy,
      )
      (
        refl,
        refl,
        lookup-delete_self tag (
            insert tag (record { owner = s.id; own_tag = tag; no_ack = no_ack })
              s.queue.channel.consumers),
        append_assoc s.queue.channel.write_queue (_ ∷ []) (_ ∷ []),
      )
