-- ===== src/Message/Delivery.antt =====
-- From `Message.publish` (rabbitpy/message.py) to `Channel._wait_for_content_frames`
-- (rabbitpy/channel.py): a broker that hands the header and the body frames of a message on as they
-- were written.
use rabbitpy.Prelude.{
  ℕ, suc, ◌<◌, ◌≡◌, refl, ◌∙◌, ap, Bool, false, String, Option, none, some, List, [], ◌∷◌, ◌++◌,
  map, length, arith, All,
}
use rabbitpy.Action.{return}
use rabbitpy.Frame.{Frame, Pamqp, bytes}
use rabbitpy.Channel.{Channel, Tick}
use rabbitpy.Channel.Writes.{CanWrite, wrote}
use rabbitpy.Channel.Wait.Order.{quiet, quiet_for, found_in}
use rabbitpy.Channel.Content.{wait_for_content_frames}
use rabbitpy.Channel.Content.Whole.{IsContent, Takes, wait_for_content_frames-whole}
use rabbitpy.Message.Body.{concat}
use rabbitpy.Message.Body.Pieces.{IsPiece}
use rabbitpy.Message.Properties.{
  Convert, Properties, maybe_utf8_encode, coerce_properties, prune_invalid_properties,
}
use rabbitpy.Message.Publish.{Attached, or_empty, publish}
use rabbitpy.Message.Publish.Frames.{publish-writes}

length-map : {A B : Type 0} (f : A → B) (l : List A) → length (map f l) ≡ length l
length-map f [] = refl
length-map f (x ∷ l) = ap suc (length-map f l)

pieces_positive :
    (m : ℕ) (payload : List ℕ) (pieces : List (List ℕ))
    → All (IsPiece m payload) pieces
    → All (λ v. 0 < length v) pieces
pieces_positive m payload [] p = tt
pieces_positive m payload (v ∷ pieces) p = (p.0.0, pieces_positive m payload pieces p.1)

-- The frames that hold a message, received on any channel that takes them, yield this body.
abbrev pub Delivers : Pamqp → List Frame → Properties → List ℕ → Type 0
Delivers pamqp frames properties body =
    (rounds parts : ℕ) (method_frame : Frame) (rest : List Frame) (later : List Tick) (t : Channel)
    → Takes method_frame t
    → t.read_queue ≡ frames ++ rest
    → t.schedule ≡ quiet_for (length frames) ++ later
    → length frames < parts
    → wait_for_content_frames pamqp (suc rounds) parts method_frame t ≡ (
      return (some (record { method = method_frame; properties = properties; body = body })),
      found_in pamqp t rest later,
    )

content-Delivers :
    (pamqp : Pamqp) (properties : Properties) (pieces : List (List ℕ))
    → IsContent pamqp
    → All (λ v. 0 < length v) pieces
    → Delivers pamqp
        (Frame.header (length (concat pieces)) properties ∷ map Frame.body pieces)
        properties
        (concat pieces)
content-Delivers pamqp properties pieces names p rounds parts method_frame rest later t takes q s
      h =
    let size : length (map Frame.body pieces) ≡ length pieces = length-map Frame.body pieces in
    wait_for_content_frames-whole pamqp rounds parts method_frame properties pieces rest later t
      names takes p q (s ∙ ap (λ n. quiet ∷ quiet_for n ++ later) size) (omega arith)

-- With pamqp's names and truth of the content frames, and a text or bytes for a body whose
-- properties can be coerced: a message that is published on a channel that can write, and not in
-- confirm mode, with a maximum frame size of at least 1: behind its method frame it queues frames
-- that, handed on unchanged to any channel that takes a message, are received there as its payload
-- and its coerced properties.
pub publish-Delivers :
    (convert : Convert) (pamqp : Pamqp) (rounds : ℕ) (exchange : String)
    (routing_key : Option String) (mandatory immediate : Bool) (d : Attached) (payload : List ℕ)
    (properties : Properties)
    → IsContent pamqp
    → maybe_utf8_encode convert d.message.body ≡ bytes payload
    → coerce_properties convert (prune_invalid_properties convert d.message.properties)
      ≡ (return tt, properties)
    → 0 < d.channel.maximum_frame_size
    → CanWrite d.channel
    → d.channel.publisher_confirms ≡ false
    → (frames : List Frame) × (publish convert pamqp rounds exchange routing_key mandatory immediate
          d
        ≡ (
          return none,
          record d {
            message = record d.message { properties = properties };
            channel =
                wrote
                  (Frame.publish exchange (or_empty routing_key) mandatory immediate ∷ frames)
                  d.channel;
          },
        ))
      × Delivers pamqp frames properties payload
publish-Delivers convert pamqp rounds exchange routing_key mandatory immediate d payload properties
      names is_payload coerced m w c =
    let (pieces, writes, joined, bounds) =
      publish-writes convert pamqp rounds exchange routing_key mandatory immediate d payload
        properties is_payload coerced m w c in
    (
      Frame.header (length payload) properties ∷ map Frame.body pieces,
      writes,
      rw (← joined) (
          content-Delivers pamqp properties pieces names
            (pieces_positive d.channel.maximum_frame_size payload pieces bounds)),
    )
