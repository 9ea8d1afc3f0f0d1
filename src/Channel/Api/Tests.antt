-- ===== src/Channel/Api/Tests.antt =====
-- Runs of a channel's methods (rabbitpy/channel.py) against pamqp's own frame classes.
use rabbitpy.Prelude.{◌≡◌, refl, true, false, none, String, [], ◌∷◌, ◌++◌, map, delete}
use rabbitpy.Action.{return, raise, ◌>>◌}
use rabbitpy.Exceptions.{runtime_error}
use rabbitpy.Stateful
use rabbitpy.Frame
use rabbitpy.Frame.{Frame, FrameClass}
use rabbitpy.Frame.Sample.{sample}
use rabbitpy.Channel.{
  Channel, Registration, write_frames, set_state, check_for_exceptions, write_frame,
  check_for_rpc_request,
}
use rabbitpy.Channel.Sample.{open_channel as sample_channel}
use rabbitpy.Channel.Wait.{validate_frame_type, rpc, read_from_queue, normalize, on_ready_to_cancel}
use rabbitpy.Channel.Wait.Order.{quiet}
use rabbitpy.Channel.Wait.Answer.{arrives}
use rabbitpy.Channel.Api.{open_channel, exit, close, cancel_consumer}
use rabbitpy.Channel.Api.Lifecycle.{Answered, lifecycle_lem}
use rabbitpy.Channel.Api.Closing.{close-runtime_error}

-- A channel that was not opened yet; the server answers its open and its close.
abbrev fresh : Channel
fresh =
    record (sample_channel 4 (
      arrives (Frame.bare FrameClass.channel_open_ok ∷ [])
      ∷ quiet
      ∷ arrives (Frame.bare FrameClass.channel_close_ok ∷ [])
      ∷ [])) { state = Stateful.closed_state }

Answered-sample : Answered sample
unfolding validate_frame_type Frame.class_of
Answered-sample = record { opens = refl; waits = refl; closes = refl }

lifecycle_lem_example :
    let r =
      (open_channel sample 2 >> write_frames (Frame.nack 3 false true ∷ []) >> exit sample 2 none)
        fresh in
    (r.0 ≡ return tt)
    × (r.1.state ≡ Stateful.closed_state)
    × (r.1.write_queue
        ≡ fresh.write_queue
          ++ map
              (λ f. (fresh.channel_id, f))
              (Frame.bare FrameClass.channel_open
                ∷ Frame.nack 3 false true
                ∷ Frame.close FrameClass.channel_close 200 "Normal Shutdown"
                ∷ []))
lifecycle_lem_example =
    lifecycle_lem sample 1 (Frame.nack 3 false true ∷ []) fresh [] Answered-sample
      (record { exceptions = refl; interrupt = refl; connected = refl; queue = refl }) refl refl

abbrev registration : String → Registration
registration own_tag = record { owner = 1; own_tag = own_tag; no_ack = false }

-- A channel with one consumer; the server answers its cancel, and would answer the close.
abbrev consuming : Channel
consuming =
    record (sample_channel 4 (
      arrives (Frame.bare FrameClass.basic_cancel_ok ∷ [])
      ∷ quiet
      ∷ arrives (Frame.bare FrameClass.channel_close_ok ∷ [])
      ∷ [])) { consumers = ("tag", registration "tag") ∷ [] }

close-runtime_error_example :
    let r = close sample 2 consuming in
    (r.0 ≡ raise runtime_error)
    × (r.1.state ≡ Stateful.closing_state)
    × (r.1.consumers ≡ [])
    × (r.1.write_queue ≡ (1, Frame.cancel "tag" false) ∷ [])
unfolding validate_frame_type Frame.class_of delete
close-runtime_error_example =
    close-runtime_error sample 1 "tag" (registration "tag") (registration "tag") [] consuming
      (quiet ∷ arrives (Frame.bare FrameClass.channel_close_ok ∷ []) ∷ []) refl refl
      (record {
        calm = record { exceptions = refl; interrupt = refl; open_state = refl; connected = refl };
        idle = refl;
        queue = refl;
        schedule = refl;
        waits = refl;
        fits = λ tag. refl;
      })

-- A consumer of the adapter under a tag of the caller's: the close cancels the adapter's own tag, which
-- no consumer has, and leaves the consumer registered.
abbrev under_custom_tag : Channel
under_custom_tag = record consuming { consumers = ("custom", registration "own") ∷ [] }

run_custom_tag :
    let r = close sample 4 under_custom_tag in
    (r.0 ≡ return tt)
    × (r.1.consumers ≡ ("custom", registration "own") ∷ [])
    × (r.1.write_queue
        ≡ (1, Frame.cancel "own" false)
          ∷ (1, Frame.close FrameClass.channel_close 200 "Normal Shutdown")
          ∷ [])
unfolding close set_state Stateful.set_state cancel_consumer check_for_exceptions on_ready_to_cancel
    rpc write_frame read_from_queue check_for_rpc_request normalize validate_frame_type
    Frame.class_of delete
run_custom_tag = (refl, refl, refl)
