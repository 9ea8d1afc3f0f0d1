-- ===== src/Channel/Api/Closing.antt =====
-- The cancelling of consumers (rabbitpy/channel.py), and what it does to a channel that is closed
-- while it has some.
use rabbitpy.Prelude.{
  ℕ, suc, ◌<◌, ◌==◌, ◌≡◌, refl, ap, true, false, String, some, List, [], ◌∷◌, ◌++◌, arith, length,
  delete, lookup, length-delete-lookup,
}
use rabbitpy.Exceptions.{runtime_error}
use rabbitpy.Action.{return, raise}
use rabbitpy.Stateful
use rabbitpy.Stateful.{is_closed, is_closing}
use rabbitpy.Frame.{Frame, FrameClass, Pamqp, class_of}
use rabbitpy.Channel.{Channel, Registration, Tick, set_state, check_for_exceptions}
use rabbitpy.Channel.Writes.{wrote}
use rabbitpy.Channel.Wait.{validate_frame_type, rpc, on_ready_to_cancel}
use rabbitpy.Channel.Wait.Order.{IsCalm, found_in}
use rabbitpy.Channel.Wait.Answer.{arrives, answers, rpc-answered}
use rabbitpy.Channel.Api.{
  close, cancel_consumer, close_consumers, close_all_consumers, begin_close, add_tag,
}

-- A calm channel with an empty read queue that does not wait, and the answer to Basic.Cancel.
pub record CanCancel (pamqp : Pamqp) (later : List Tick) (s : Channel) : Type 0 where
  pub calm : IsCalm s
  pub idle : s.waiting ≡ false
  pub queue : s.read_queue ≡ []
  pub schedule : s.schedule ≡ arrives (Frame.bare FrameClass.basic_cancel_ok ∷ []) ∷ later
  pub waits : pamqp.synchronous FrameClass.basic_cancel ≡ true
  pub fits :
      (tag : String)
      → validate_frame_type pamqp
          (Frame.bare FrameClass.basic_cancel_ok)
          (answers pamqp (Frame.cancel tag false))
        ≡ true

-- The channel without this consumer, once its cancel command was answered.
abbrev pub cancelled : Pamqp → String → List Tick → Channel → Channel
cancelled pamqp tag later s =
    found_in pamqp
      (wrote (Frame.cancel tag false ∷ []) (record s { consumers = delete tag s.consumers })) []
      later

module _ (pamqp : Pamqp) (rounds : ℕ) where
  send_cancel-answered :
      (tag : String) (s : Channel) (later : List Tick)
      → CanCancel pamqp later s
      → rpc pamqp
          (suc rounds)
          (Frame.cancel tag false)
          (record s { consumers = delete tag s.consumers })
        ≡ (return (some (Frame.bare FrameClass.basic_cancel_ok)), cancelled pamqp tag later s)
  unfolding class_of
  send_cancel-answered tag s later c =
      rpc-answered pamqp (suc rounds) (Frame.cancel tag false)
        (record s { consumers = delete tag s.consumers }) [] []
        (Frame.bare FrameClass.basic_cancel_ok) later
        (record {
          exceptions = c.calm.exceptions;
          interrupt = c.calm.interrupt;
          open_state = c.calm.open_state;
          connected = c.calm.connected;
        })
        c.waits tt refl (c.fits tag) c.queue c.schedule (omega arith)

  pub cancel_consumer-answered :
      (tag : String) (s : Channel) (later : List Tick)
      → CanCancel pamqp later s
      → cancel_consumer pamqp (suc rounds) tag false s ≡ (return tt, cancelled pamqp tag later s)
  unfolding cancel_consumer check_for_exceptions on_ready_to_cancel rpc
  cancel_consumer-answered tag s later c =
      ground
        (arith, c.calm.exceptions, c.calm.open_state, c.idle, send_cancel-answered tag s later c)

module _ (pamqp : Pamqp) (rounds : ℕ) where
  close_consumers-resized :
      (rounds size : ℕ) (l : List (String × Registration)) (tags : List String) (s : Channel)
      → length s.consumers < size
      → close_consumers pamqp rounds size l tags s ≡ (raise runtime_error, s)
  unfolding close_consumers
  close_consumers-resized rounds size [] tags s n = ground (arith, n)
  close_consumers-resized rounds size (_ ∷ _) tags s n = ground (arith, n)

  abbrev with_consumers : List (String × Registration) → Channel → Channel
  with_consumers consumers s = record s { consumers = consumers }

  close_all_consumers-raises :
      (key : String) (d e : Registration) (rest : List (String × Registration)) (s : Channel)
      (later : List Tick)
      → lookup d.own_tag ((key, d) ∷ rest) ≡ some e
      → CanCancel pamqp later (with_consumers ((key, d) ∷ rest) s)
      → close_all_consumers pamqp (suc rounds) (with_consumers ((key, d) ∷ rest) s) ≡ (
        raise runtime_error,
        cancelled pamqp d.own_tag later (with_consumers ((key, d) ∷ rest) s),
      )
  unfolding close_all_consumers close_consumers
  close_all_consumers-raises key d e rest s later known c =
      let r : Channel = with_consumers ((key, d) ∷ rest) s in
      let size : ℕ = suc (length rest) in
      let same : (size == size) ≡ true = ground arith in
      rw
        (
          same,
          cancel_consumer-answered pamqp rounds d.own_tag r later c,
          close_consumers-resized (suc rounds) size rest
              (add_tag pamqp (suc rounds) d.own_tag d.no_ack []) (cancelled pamqp d.own_tag later r)
              (length-delete-lookup d.own_tag e ((key, d) ∷ rest) known),
        )
        refl

  begin_close-calm :
      (s : Channel)
      → IsCalm s
      → begin_close pamqp (suc rounds) s ≡ (return tt, record s { state = Stateful.closing_state })
  unfolding begin_close set_state Stateful.set_state
  begin_close-calm s c = ground (arith, c.connected, c.open_state)

-- A channel that is closed while it has consumers, is calm, does not wait and gets the answer to
-- Basic.Cancel, where the own tag of the object that was registered first is one under which a
-- consumer is registered (for a queue it is the tag of its registration, unless it has consumed
-- again under another): the close raises a RuntimeError once the consumer of that tag was cancelled,
-- with no Channel.Close queued, the channel left closing, and that consumer forgotten.
pub close-runtime_error :
    (pamqp : Pamqp) (rounds : ℕ) (key : String) (d e : Registration)
    (rest : List (String × Registration)) (s : Channel) (later : List Tick)
    → s.consumers ≡ (key, d) ∷ rest
    → lookup d.own_tag ((key, d) ∷ rest) ≡ some e
    → CanCancel pamqp later s
    → let r = close pamqp (suc rounds) s in
      (r.0 ≡ raise runtime_error)
      × (r.1.state ≡ Stateful.closing_state)
      × (r.1.consumers ≡ delete d.own_tag ((key, d) ∷ rest))
      × (r.1.write_queue ≡ s.write_queue ++ (s.channel_id, Frame.cancel d.own_tag false) ∷ [])
unfolding close
close-runtime_error pamqp rounds key d e rest s later n known c =
    let r : Channel = record s { state = Stateful.closing_state } in
    rw
      (
        begin_close-calm pamqp rounds s c.calm,
        ap (close_all_consumers pamqp (suc rounds))
            (ap (λ consumers. with_consumers pamqp rounds consumers r) n),
        close_all_consumers-raises pamqp rounds key d e rest r later known (record {
          calm = record {
            exceptions = c.calm.exceptions;
            interrupt = c.calm.interrupt;
            open_state = refl;
            connected = c.calm.connected;
          };
          idle = c.idle;
          queue = c.queue;
          schedule = c.schedule;
          waits = c.waits;
          fits = c.fits;
        }),
      )
      (refl, refl, refl, refl)
