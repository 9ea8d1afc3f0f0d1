-- ===== src/Channel/Content/Tests.antt =====
-- Messages received on a channel (rabbitpy/channel.py).
use rabbitpy.Prelude.{◌≡◌, refl, false, some, [], ◌∷◌, arith}
use rabbitpy.Action.{return}
use rabbitpy.Frame.{Frame}
use rabbitpy.Frame.Sample.{sample}
use rabbitpy.Channel.{Channel}
use rabbitpy.Channel.Sample.{open_channel}
use rabbitpy.Channel.Wait.Order.{quiet_for, found_in}
use rabbitpy.Channel.Content.Sample.{IsContent-sample}
use rabbitpy.Channel.Content.{is_done, is_deliver, wait_for_content_frames}
use rabbitpy.Channel.Content.Whole.{Takes, wait_for_content_frames-whole}

abbrev delivery : Frame
delivery = Frame.deliver "tag" 7

abbrev delivered : Channel
delivered = record (open_channel 4 (quiet_for 4)) {
  consumers = ("tag", record { owner = 1; own_tag = "tag"; no_ack = false }) ∷ [];
  read_queue =
      Frame.header 3 []
      ∷ Frame.body (1 ∷ 2 ∷ [])
      ∷ Frame.body (3 ∷ [])
      ∷ Frame.deliver "tag" 8
      ∷ [];
}

Takes-delivered : Takes delivery delivered
unfolding is_done is_deliver
Takes-delivered = record {
  calm = record { exceptions = refl; interrupt = refl; open_state = refl; connected = refl };
  not_done = refl;
  consumed = refl;
}

wait_for_content_frames-whole_example : wait_for_content_frames sample 2 3 delivery delivered ≡ (
  return (some (record { method = delivery; properties = []; body = 1 ∷ 2 ∷ 3 ∷ [] })),
  found_in sample delivered (Frame.deliver "tag" 8 ∷ []) (quiet_for 1),
)
wait_for_content_frames-whole_example =
    wait_for_content_frames-whole sample 1 3 delivery [] ((1 ∷ 2 ∷ []) ∷ (3 ∷ []) ∷ [])
      (Frame.deliver "tag" 8 ∷ []) (quiet_for 1) delivered IsContent-sample Takes-delivered
      (omega arith, (omega arith, tt)) refl refl (omega arith)
