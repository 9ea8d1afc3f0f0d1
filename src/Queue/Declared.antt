-- ===== src/Queue/Declared.antt =====
-- The declaration of a queue with its answer (rabbitpy/amqp_queue.py, `declare` and `__len__`).
use rabbitpy.Prelude.{
  ℕ, ◌<◌, ◌≡◌, refl, if◌then◌else◌, Bool, true, String, List, [], ◌∷◌, ◌++◌, length, All, str_eq,
  lookup,
}
use rabbitpy.Action.{return}
use rabbitpy.Frame.{Frame, FrameClass, Value, Pamqp, class_of}
use rabbitpy.Channel.{Channel, Tick}
use rabbitpy.Channel.Writes.{wrote}
use rabbitpy.Channel.Wait.{validate_frame_type}
use rabbitpy.Channel.Wait.Order.{quiet_for, IsCalm, IsPassedOver, found_in}
use rabbitpy.Channel.Wait.Answer.{arrives, answers, rpc-answered}
use rabbitpy.Queue.{Queue, declare_arguments, declare_frame, declare}
use rabbitpy.Queue.Arguments.{attribute, override, lookup-declare_arguments}

-- The other frames of the read queue and what arrives with the answer, which is this frame.
pub record IsAnswered (pamqp : Pamqp) (rounds : ℕ) (command answer : Frame) (pre post : List Frame)
    (later : List Tick) (s : Channel) : Type 0 where
  pub calm : IsCalm s
  pub waits : pamqp.synchronous (class_of command) ≡ true
  pub passed_over : All (IsPassedOver pamqp (answers pamqp command)) pre
  pub fits : validate_frame_type pamqp answer (answers pamqp command) ≡ true
  pub queue : s.read_queue ≡ pre
  pub schedule : s.schedule ≡ arrives (answer ∷ post) ∷ quiet_for (length pre) ++ later
  pub enough : length pre < rounds

-- A declaration on a calm channel that is answered, with enough rounds, queues one Queue.Declare
-- with the queue's name and flags, and with arguments that are the queue's own, under each of the
-- five names of attributes replaced by the attribute where it is set. It returns the server's counts
-- of messages and consumers; a queue without a name takes the server's name for it. The frames that
-- came before and behind the answer stay in the read queue.
pub declare-answered :
    (pamqp : Pamqp) (rounds : ℕ) (passive : Bool) (s : Queue) (name : String)
    (message_count consumer_count : ℕ) (pre post : List Frame) (later : List Tick)
    → IsAnswered pamqp rounds
        (Frame.bare FrameClass.queue_declare)
        (Frame.declared_queue name message_count consumer_count)
        pre
        post
        later
        s.channel
    → (arguments : List (String × Value)) × ((key : String)
        → lookup key arguments ≡ override (attribute s key) (lookup key s.arguments))
      × (declare pamqp rounds passive s ≡ (
        return (message_count, consumer_count),
        record s {
          name = if str_eq s.name "" then name else s.name;
          channel =
              found_in pamqp
                (wrote
                  (Frame.declare_queue s.name s.durable passive s.exclusive s.auto_delete arguments
                    ∷ [])
                  s.channel)
                (post ++ pre)
                later;
        },
      ))
unfolding declare declare_frame class_of
declare-answered pamqp rounds passive s name message_count consumer_count pre post later a = (
  declare_arguments s,
  lookup-declare_arguments s,
  rw
      (rpc-answered pamqp rounds (declare_frame passive s) s.channel pre post
        (Frame.declared_queue name message_count consumer_count) later a.calm a.waits a.passed_over
        refl a.fits a.queue a.schedule a.enough)
      refl,
)
