-- ===== src/Channel/Tests.antt =====
-- Runs of a channel (rabbitpy/base.py and rabbitpy/channel.py) against pamqp's own frame classes.
use rabbitpy.Prelude.{◌≡◌, ◌⊎◌, refl, false, some, [], ◌∷◌, arith}
use rabbitpy.Action.{return, raise}
use rabbitpy.Exceptions.{remote_closed_channel}
use rabbitpy.Frame
use rabbitpy.Frame.{Frame, FrameClass, any_of, one, by_name, by_class}
use rabbitpy.Frame.Sample.{sample}
use rabbitpy.Channel.{
  Channel, Tick, check_for_exceptions, check_for_rpc_request, write_frame, write_frames,
}
use rabbitpy.Channel.Sample.{open_channel}
use rabbitpy.Channel.Writes.{CanWrite, wrote, Refused, write_frames_cases}
use rabbitpy.Channel.Wait.{wait_on_frame, rpc, read_from_queue, validate_frame_type, normalize}
use rabbitpy.Channel.Wait.Found.{Found, wait_on_frame-Found}
use rabbitpy.Channel.Wait.Order.{quiet, quiet_for, found_in}
use rabbitpy.Channel.Wait.Answer.{arrives, rpc-answered}
use rabbitpy.Channel.Wait.Live.{wait_on_frame-finds}
use rabbitpy.Channel.Wait.Cancels.{Cancels}
use rabbitpy.Channel.Wait.Writes.{rpc-Cancels}

abbrev header : Frame
header = Frame.header 3 []

abbrev body : Frame
body = Frame.body (1 ∷ 2 ∷ 3 ∷ [])

abbrev delivery : Frame
delivery = Frame.deliver "tag" 7

-- A header is awaited behind two other frames.
abbrev behind : Channel
behind = record (open_channel 4 []) {
  read_queue = delivery ∷ body ∷ header ∷ delivery ∷ [];
  schedule = quiet_for 5;
}

run_wait : (wait_on_frame sample 3 (one (by_name "ContentHeader")) behind).0 ≡ return (some header)
unfolding wait_on_frame check_for_exceptions read_from_queue check_for_rpc_request
    validate_frame_type normalize Frame.class_of
run_wait = refl

wait_on_frame-Found_example : Found sample (one (by_name "ContentHeader")) (some header)
wait_on_frame-Found_example =
    wait_on_frame-Found sample 3 (one (by_name "ContentHeader")) behind (some header) run_wait

CanWrite-behind : CanWrite behind
CanWrite-behind = record { exceptions = refl; connected = refl; open_state = refl }

write_frames_cases_example :
    CanWrite behind
      × (write_frames (header ∷ body ∷ []) behind ≡ (return tt, wrote (header ∷ body ∷ []) behind))
    ⊎ ¬ CanWrite behind
      × Refused
          (write_frames (header ∷ body ∷ []) behind).0
          behind
          (write_frames (header ∷ body ∷ []) behind).1
write_frames_cases_example = write_frames_cases (header ∷ body ∷ []) behind

-- The answer arrives behind a delivery, while another delivery waits in the queue.
abbrev asking : Channel
asking = record (open_channel 4 []) {
  read_queue = delivery ∷ [];
  schedule = arrives (Frame.bare FrameClass.channel_close_ok ∷ delivery ∷ []) ∷ quiet_for 3;
}

rpc-answered_example : rpc sample 3 (Frame.bare FrameClass.channel_close) asking ≡ (
  return (some (Frame.bare FrameClass.channel_close_ok)),
  found_in sample
      (wrote (Frame.bare FrameClass.channel_close ∷ []) asking)
      (delivery ∷ delivery ∷ [])
      (quiet_for 2),
)
unfolding validate_frame_type Frame.class_of
rpc-answered_example =
    rpc-answered sample 3 (Frame.bare FrameClass.channel_close) asking (delivery ∷ [])
      (delivery ∷ []) (Frame.bare FrameClass.channel_close_ok) (quiet_for 2)
      (record { exceptions = refl; interrupt = refl; open_state = refl; connected = refl }) refl
      ((refl, refl), tt) refl refl refl refl (omega arith)

-- While the two frames before the header are read, another delivery arrives, and another thread
-- writes on its channel.
abbrev arriving : Tick
arriving = record quiet { frames = delivery ∷ []; written = (2, body) ∷ [] }

abbrev disturbed : Channel
disturbed = record behind { schedule = arriving ∷ quiet ∷ arriving ∷ quiet_for 2 }

wait_on_frame-finds_example : wait_on_frame sample 3 (one (by_name "ContentHeader")) disturbed ≡ (
  return (some header),
  record disturbed {
    read_queue = delivery ∷ delivery ∷ delivery ∷ body ∷ delivery ∷ [];
    write_queue = (2, body) ∷ (2, body) ∷ [];
    schedule = quiet_for 2;
    waiting = false;
  },
)
unfolding validate_frame_type Frame.class_of
wait_on_frame-finds_example =
    wait_on_frame-finds sample 3 (one (by_name "ContentHeader")) disturbed
      ((delivery, arriving) ∷ (body, quiet) ∷ []) header arriving (delivery ∷ []) (quiet_for 2)
      (record { exceptions = refl; interrupt = refl; open_state = refl; connected = refl })
      (
        ((refl, refl), record { exceptions = refl; connection_state = refl; interrupt = refl }),
        (
          ((refl, refl), record { exceptions = refl; connection_state = refl; interrupt = refl }),
          tt,
        ),
      )
      (record { exceptions = refl; connection_state = refl; interrupt = refl }) refl refl refl refl
      (omega arith)

rpc-Cancels_example :
    Cancels
      ((1, Frame.bare FrameClass.channel_open) ∷ [])
      1
      disturbed.schedule
      (rpc sample 3 (Frame.bare FrameClass.channel_open) disturbed).1
rpc-Cancels_example =
    rpc-Cancels sample 3 (Frame.bare FrameClass.channel_open) disturbed
      (record { exceptions = refl; connected = refl; open_state = refl })

-- A remote close of an unknown code comes out as an exception, and the frame is gone.
run_remote_close :
    (wait_on_frame sample 3
      (one (by_name "ContentHeader"))
      (record behind { read_queue = Frame.close FrameClass.channel_close 999 "why" ∷ [] })).0
    ≡ raise (remote_closed_channel 1 999 "why")
unfolding wait_on_frame check_for_exceptions read_from_queue check_for_rpc_request
run_remote_close = refl

-- The interrupt of a wait for a delivery cancels the consumer. Its command waits for CancelOk while
-- the interrupt is still set, so that another frame that comes first has it cancel again.
abbrev interrupted : Channel
interrupted = record (open_channel 4 []) {
  consumers = ("tag", record { owner = 1; own_tag = "tag"; no_ack = false }) ∷ [];
  schedule =
      record quiet { interrupt = some ("tag", false) }
      ∷ record quiet { frames = header ∷ [] }
      ∷ record quiet { frames = Frame.bare FrameClass.basic_cancel_ok ∷ [] }
      ∷ quiet
      ∷ [];
}

run_interrupted :
    (wait_on_frame sample 9 (one (by_name "Basic.Deliver")) interrupted).1.write_queue
    ≡ (1, Frame.cancel "tag" false)
      ∷ (1, Frame.cancel "tag" false)
      ∷ (1, Frame.cancel "tag" false)
      ∷ []
unfolding wait_on_frame check_for_exceptions read_from_queue check_for_rpc_request
    validate_frame_type normalize Frame.class_of rpc write_frame
run_interrupted = refl
