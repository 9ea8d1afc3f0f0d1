-- ===== src/Queue/Tests.antt =====
-- A queue without a name that is declared, and its arguments (rabbitpy/amqp_queue.py).
use rabbitpy.Prelude.{◌≡◌, refl, true, false, none, some, String, List, [], ◌∷◌, arith, lookup}
use rabbitpy.Action.{return}
use rabbitpy.Frame
use rabbitpy.Frame.{Frame, FrameClass, Value, int, text, texts}
use rabbitpy.Frame.Sample.{sample}
use rabbitpy.Channel.Sample.{open_channel}
use rabbitpy.Channel.Writes.{wrote}
use rabbitpy.Channel.Wait.{validate_frame_type}
use rabbitpy.Channel.Wait.Order.{quiet_for, found_in}
use rabbitpy.Channel.Wait.Answer.{arrives}
use rabbitpy.Queue.{Queue, declare_arguments, declare}
use rabbitpy.Queue.Arguments.{attribute, override, set_number, set_text, lookup-declare_arguments}
use rabbitpy.Queue.Declared.{IsAnswered, declare-answered}

abbrev nameless : Queue
nameless = record {
  channel =
      record (open_channel 4 (arrives (Frame.declared_queue "amq.gen" 3 1 ∷ []) ∷ quiet_for 2)) {
        read_queue = Frame.deliver "tag" 7 ∷ [];
      };
  name = "";
  durable = true;
  exclusive = false;
  auto_delete = false;
  arguments = ("x-max-length", int 9) ∷ [];
  max_length = some 0;
  message_ttl = some 60000;
  expires = none;
  dead_letter_exchange = some "dead";
  dead_letter_routing_key = none;
}

-- A maximum length of 0 leaves the argument of the same name as it was given.
lookup-declare_arguments_example : lookup "x-max-length" (declare_arguments nameless) ≡ some (int 9)
unfolding set_number set_text
lookup-declare_arguments_example = lookup-declare_arguments nameless "x-max-length"

IsAnswered-nameless :
    IsAnswered sample 3
      (Frame.bare FrameClass.queue_declare)
      (Frame.declared_queue "amq.gen" 3 1)
      (Frame.deliver "tag" 7 ∷ [])
      []
      (quiet_for 1)
      nameless.channel
unfolding validate_frame_type Frame.class_of
IsAnswered-nameless = record {
  calm = record { exceptions = refl; interrupt = refl; open_state = refl; connected = refl };
  waits = refl;
  passed_over = ((refl, refl), tt);
  fits = refl;
  queue = refl;
  schedule = refl;
  enough = omega arith;
}

declare-answered_example :
    (arguments : List (String × Value)) × ((key : String)
      → lookup key arguments ≡ override (attribute nameless key) (lookup key nameless.arguments))
    × (declare sample 3 false nameless ≡ (
      return (3, 1),
      record nameless {
        name = "amq.gen";
        channel =
            found_in sample
              (wrote
                (Frame.declare_queue "" true false false false arguments ∷ [])
                nameless.channel)
              (Frame.deliver "tag" 7 ∷ [])
              (quiet_for 1);
      },
    ))
declare-answered_example =
    declare-answered sample 3 false nameless "amq.gen" 3 1 (Frame.deliver "tag" 7 ∷ []) []
      (quiet_for 1) IsAnswered-nameless
