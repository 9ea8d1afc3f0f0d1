-- ===== src/Queue/Consuming/Tests.antt =====
-- A run of a consumer (rabbitpy/amqp_queue.py).
use rabbitpy.Prelude.{◌≡◌, refl, true, false, none, [], ◌∷◌, lookup}
use rabbitpy.Action.{return, ◌>>◌}
use rabbitpy.Frame
use rabbitpy.Frame.{Frame, FrameClass}
use rabbitpy.Frame.Sample.{sample}
use rabbitpy.Channel.Sample.{open_channel}
use rabbitpy.Channel.Wait.{validate_frame_type}
use rabbitpy.Channel.Wait.Answer.{arrives}
use rabbitpy.Queue.Consuming.{Consumer, begin, close}
use rabbitpy.Queue.Consuming.Cancelled.{CanConsume, close-begin}

abbrev consumer : Consumer
consumer = record {
  id = 77;
  queue = record {
    channel = open_channel 4 (
        arrives (Frame.bare FrameClass.basic_consume_ok ∷ [])
        ∷ arrives (Frame.bare FrameClass.basic_cancel_ok ∷ [])
        ∷ []);
    name = "jobs";
    durable = true;
    exclusive = false;
    auto_delete = false;
    arguments = [];
    max_length = none;
    message_ttl = none;
    expires = none;
    dead_letter_exchange = none;
    dead_letter_routing_key = none;
  };
  consumer_tag = "rabbitpy.1.77";
  consuming = false;
}

CanConsume-consumer : CanConsume sample [] consumer.queue.channel
unfolding validate_frame_type Frame.class_of
CanConsume-consumer = record {
  calm = record { exceptions = refl; interrupt = refl; open_state = refl; connected = refl };
  idle = refl;
  queue = refl;
  schedule = refl;
  consume_waits = refl;
  cancel_waits = refl;
  consume_fits = λ queue tag no_ack. refl;
  cancel_fits = λ tag. refl;
}

close-begin_example :
    let r = (begin false sample 3 false none none none >> close false sample 3) consumer in
    (r.0 ≡ return tt)
    × (r.1.consuming ≡ false)
    × (lookup "rabbitpy.1.77" r.1.queue.channel.consumers ≡ none)
    × (r.1.queue.channel.write_queue
        ≡ (1, Frame.consume "jobs" "rabbitpy.1.77" false none)
          ∷ (1, Frame.cancel "rabbitpy.1.77" false)
          ∷ [])
close-begin_example = close-begin false sample 2 false consumer [] CanConsume-consumer
