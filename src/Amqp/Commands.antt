-- ===== src/Amqp/Commands.antt =====
-- Sequences of commands of one adapter (rabbitpy/amqp.py), each answered by the server where AMQP has
-- an answer.
use rabbitpy.Prelude.{
  ◌⊎◌, inl, inr, ℕ, suc, ◌≡◌, refl, sym, ◌∙◌, Bool, true, false, String, List, [], ◌∷◌, ◌++◌, map,
  append-nil, append_assoc,
}
use rabbitpy.Action.{Action, return, pure, ◌>>◌}
use rabbitpy.Frame
use rabbitpy.Frame.{Frame, FrameClass, Pamqp}
use rabbitpy.Channel.{Channel, Tick}
use rabbitpy.Channel.Writes.{wrote, write_frame-open}
use rabbitpy.Channel.Wait.Order.{IsCalm}
use rabbitpy.Channel.Wait.Answer.{arrives}
use rabbitpy.Channel.Api.Commands.{IsAnswer, answered, answered-IsCalm, channel_rpc-answered}
use rabbitpy.Amqp.{
  Adapter, Table, command, write, basic_ack, basic_nack, basic_reject, basic_get, basic_qos,
  basic_recover, confirm_select, exchange_declare, exchange_delete, exchange_bind, exchange_unbind,
  queue_bind, queue_declare, queue_delete, queue_purge, queue_unbind, tx_select, tx_commit,
  tx_rollback,
}

-- The commands of the adapter, with their arguments.
pub data Operation : Type 0 where
  acks : (delivery_tag : ℕ) (multiple : Bool) → Operation
  nacks : (delivery_tag : ℕ) (multiple requeue : Bool) → Operation
  rejects : (delivery_tag : ℕ) (requeue : Bool) → Operation
  gets : (queue : String) (no_ack : Bool) → Operation
  limits : (prefetch_size prefetch_count : ℕ) (global_flag : Bool) → Operation
  recovers : (requeue : Bool) → Operation
  confirms : Operation
  declares_exchange :
      (exchange exchange_type : String) (passive durable auto_delete internal nowait : Bool)
      (arguments : Table)
      → Operation
  deletes_exchange : (exchange : String) (if_unused nowait : Bool) → Operation
  binds_exchange :
      (destination source routing_key : String) (nowait : Bool) (arguments : Table) → Operation
  unbinds_exchange :
      (destination source routing_key : String) (nowait : Bool) (arguments : Table) → Operation
  binds_queue :
      (queue exchange routing_key : String) (nowait : Bool) (arguments : Table) → Operation
  declares_queue :
      (queue : String) (passive durable exclusive auto_delete nowait : Bool) (arguments : Table)
      → Operation
  deletes_queue : (queue : String) (if_unused if_empty nowait : Bool) → Operation
  purges : (queue : String) (nowait : Bool) → Operation
  unbinds_queue : (queue exchange routing_key : String) (arguments : Table) → Operation
  selects : Operation
  commits : Operation
  rolls_back : Operation

-- What each of them should send.
abbrev pub sends : Operation → Frame
sends (acks n m) = Frame.ack n m
sends (nacks n m r) = Frame.nack n m r
sends (rejects n r) = Frame.reject n r
sends (gets q a) = Frame.get q a
sends (limits z c g) = Frame.qos z c g
sends (recovers r) = Frame.recover r
sends confirms = Frame.bare FrameClass.confirm_select
sends (declares_exchange e k p d a i w t) =
    Frame.built (Frame.declare_exchange_with 0 e k p d a i w t)
sends (deletes_exchange e u w) = Frame.built (Frame.delete_exchange_with 0 e u w)
sends (binds_exchange d s k w t) = Frame.built (Frame.bind_exchange_with 0 d s k w t)
sends (unbinds_exchange d s k w t) = Frame.built (Frame.unbind_exchange_with 0 d s k w t)
sends (binds_queue q e k w t) = Frame.built (Frame.bind_queue_with 0 q e k w t)
sends (declares_queue q p d e a w t) = Frame.built (Frame.declare_queue_with 0 q p d e a w t)
sends (deletes_queue q u e w) = Frame.built (Frame.delete_queue_with 0 q u e w)
sends (purges q w) = Frame.built (Frame.purge_queue_with 0 q w)
sends (unbinds_queue q e k t) = Frame.built (Frame.unbind_queue_with 0 q e k t)
sends selects = Frame.bare FrameClass.tx_select
sends commits = Frame.bare FrameClass.tx_commit
sends rolls_back = Frame.bare FrameClass.tx_rollback

-- The commands that AMQP does not answer.
abbrev pub is_unanswered : Operation → Bool
is_unanswered (acks n m) = true
is_unanswered (nacks n m r) = true
is_unanswered (rejects n r) = true
is_unanswered o = false

module _ (pamqp : Pamqp) (rounds : ℕ) where
  abbrev pub perform : Operation → Action Adapter Unit
  perform (acks n m) = basic_ack n m
  perform (nacks n m r) = basic_nack n m r
  perform (rejects n r) = basic_reject n r
  perform (gets q a) = basic_get pamqp rounds q a
  perform (limits z c g) = basic_qos pamqp rounds z c g
  perform (recovers r) = basic_recover pamqp rounds r
  perform confirms = confirm_select pamqp rounds
  perform (declares_exchange e k p d a i w t) = exchange_declare pamqp rounds e k p d a i w t
  perform (deletes_exchange e u w) = exchange_delete pamqp rounds e u w
  perform (binds_exchange d s k w t) = exchange_bind pamqp rounds d s k w t
  perform (unbinds_exchange d s k w t) = exchange_unbind pamqp rounds d s k w t
  perform (binds_queue q e k w t) = queue_bind pamqp rounds q e k w t
  perform (declares_queue q p d e a w t) = queue_declare pamqp rounds q p d e a w t
  perform (deletes_queue q u e w) = queue_delete pamqp rounds q u e w
  perform (purges q w) = queue_purge pamqp rounds q w
  perform (unbinds_queue q e k t) = queue_unbind pamqp rounds q e k t
  perform selects = tx_select pamqp rounds
  perform commits = tx_commit pamqp rounds
  perform rolls_back = tx_rollback pamqp rounds

  abbrev pub run : List Operation → Action Adapter Unit
  run [] = pure tt
  run (o ∷ os) = perform o >> run os

  pub perform-command :
      (o : Operation) → is_unanswered o ≡ false → perform o ≡ command pamqp rounds (sends o)
  unfolding basic_get basic_qos basic_recover confirm_select exchange_declare exchange_delete
      exchange_bind exchange_unbind queue_bind queue_declare queue_delete queue_purge queue_unbind
      tx_select tx_commit tx_rollback
  perform-command (acks n m) h = cc
  perform-command (nacks n m r) h = cc
  perform-command (rejects n r) h = cc
  perform-command (gets q a) h = refl
  perform-command o h = refl

  perform-write : (o : Operation) → is_unanswered o ≡ true → perform o ≡ write (sends o)
  unfolding basic_ack basic_nack basic_reject
  perform-write (acks n m) h = refl
  perform-write (nacks n m r) h = refl
  perform-write (rejects n r) h = refl
  perform-write o h = cc

-- The server answers each operation in turn that has an answer.
abbrev pub Serves : Pamqp → List Operation → List Tick → Type 0
Serves pamqp [] ticks = Unit
Serves pamqp (o ∷ os) ticks =
    (is_unanswered o ≡ true) × Serves pamqp os ticks
    ⊎ (is_unanswered o ≡ false)
      × ((answer : Frame) × (later : List Tick) × (ticks ≡ arrives (answer ∷ []) ∷ later)
          × IsAnswer pamqp (sends o) answer
          × Serves pamqp os later)

write-open :
    (frame : Frame) (s : Adapter)
    → IsCalm s.channel
    → write frame s ≡ (return tt, record s { channel = wrote (frame ∷ []) s.channel })
unfolding write
write-open frame s c =
    rw
      (write_frame-open frame s.channel
        (record { exceptions = c.exceptions; connected = c.connected; open_state = c.open_state }))
      refl

wrote-IsCalm : (frame : Frame) (c : Channel) → IsCalm c → IsCalm (wrote (frame ∷ []) c)
wrote-IsCalm frame c h = record {
  exceptions = h.exceptions;
  interrupt = h.interrupt;
  open_state = h.open_state;
  connected = h.connected;
}

command-answered :
    (pamqp : Pamqp) (rounds : ℕ) (frame : Frame) (s : Adapter) (answer : Frame) (later : List Tick)
    → IsCalm s.channel
    → s.channel.read_queue ≡ []
    → s.channel.schedule ≡ arrives (answer ∷ []) ∷ later
    → IsAnswer pamqp frame answer
    → command pamqp (suc rounds) frame s
      ≡ (return tt, record s { channel = answered pamqp frame later s.channel })
unfolding command
command-answered pamqp rounds frame s answer later c q t a =
    rw (channel_rpc-answered pamqp rounds frame s.channel answer later c q t a) refl

-- An adapter on a calm channel with an empty read queue, whose server answers each command that has
-- an answer: every sequence of the commands returns, and has queued the frames that they stand for,
-- in order, with all of their arguments.
pub run-writes :
    (pamqp : Pamqp) (rounds : ℕ) (os : List Operation) (s : Adapter)
    → IsCalm s.channel
    → s.channel.read_queue ≡ []
    → Serves pamqp os s.channel.schedule
    → let r = run pamqp (suc rounds) os s in
      (r.0 ≡ return tt)
      × (r.1.channel.write_queue
          ≡ s.channel.write_queue ++ map (λ o. (s.channel.channel_id, sends o)) os)
run-writes pamqp rounds [] s c q h = (refl, sym (append-nil s.channel.write_queue))
run-writes pamqp rounds (o ∷ os) s c q (inl (un, more)) =
    let (r, w) =
      run-writes pamqp rounds os (record s { channel = wrote (sends o ∷ []) s.channel })
        (wrote-IsCalm (sends o) s.channel c) q more in
    rw (perform-write pamqp (suc rounds) o un, write-open (sends o) s c)
      (r, w ∙ append_assoc s.channel.write_queue (_ ∷ []) _)
run-writes pamqp rounds (o ∷ os) s c q (inr (an, (answer, later, t, a, more))) =
    let (r, w) =
      run-writes pamqp rounds os (record s { channel = answered pamqp (sends o) later s.channel })
        (answered-IsCalm pamqp (sends o) later s.channel c) refl more in
    rw
      (
        perform-command pamqp (suc rounds) o an,
        command-answered pamqp rounds (sends o) s answer later c q t a,
      )
      (r, w ∙ append_assoc s.channel.write_queue (_ ∷ []) _)
