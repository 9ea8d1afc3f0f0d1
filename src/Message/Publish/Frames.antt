-- ===== src/Message/Publish/Frames.antt =====
-- What `Message.publish` (rabbitpy/message.py) writes and returns.
use rabbitpy.Prelude.{
  ℕ, suc, ◌-◌, ◌<◌, ◌≡◌, Bool, false, String, Option, none, List, ◌∷◌, map, length, arith, All,
}
use rabbitpy.Exceptions.{zero_division}
use rabbitpy.Action.{return, raise}
use rabbitpy.Frame.{Frame, Pamqp, bytes}
use rabbitpy.Channel.Writes.{CanWrite, wrote, write_frames-open}
use rabbitpy.Message.Properties.{
  Convert, Properties, maybe_utf8_encode, coerce_properties, prune_invalid_properties,
}
use rabbitpy.Message.Body.{body_pieces, concat}
use rabbitpy.Message.Body.Pieces.{IsPiece, body_pieces_lem}
use rabbitpy.Message.Publish.{Attached, or_empty, publish}

-- The frames of a message whose body was cut into these pieces.
abbrev pub message_frames :
    String → Option String → Bool → Bool → ℕ → Properties → List (List ℕ) → List Frame
message_frames exchange routing_key mandatory immediate size properties pieces =
    Frame.publish exchange (or_empty routing_key) mandatory immediate
    ∷ Frame.header size properties
    ∷ map Frame.body pieces

module _ (convert : Convert) (pamqp : Pamqp) (rounds : ℕ) (exchange : String)
    (routing_key : Option String) (mandatory immediate : Bool) (d : Attached) (payload : List ℕ)
    (properties : Properties)
    (is_payload : maybe_utf8_encode convert d.message.body ≡ bytes payload)
    (coerced : coerce_properties convert (prune_invalid_properties convert d.message.properties)
      ≡ (return tt, properties)) where
  -- The attached message after its properties were pruned and coerced.
  abbrev pub with_properties : Attached
  with_properties = record d { message = record d.message { properties = properties } }

  publish-eq :
      (n : ℕ)
      → d.channel.maximum_frame_size ≡ suc n
      → CanWrite d.channel
      → d.channel.publisher_confirms ≡ false
      → publish convert pamqp rounds exchange routing_key mandatory immediate d ≡ (
        return none,
        record with_properties {
          channel =
              wrote
                (message_frames exchange routing_key mandatory immediate
                  (length payload)
                  properties
                  (body_pieces d.channel.maximum_frame_size payload))
                d.channel;
        },
      )
  unfolding publish
  publish-eq n m w c = ground (
    arith,
    write_frames-open
        (message_frames exchange routing_key mandatory immediate (length payload) properties
          (body_pieces d.channel.maximum_frame_size payload))
        d.channel w,
  )

  publish_zero :
      d.channel.maximum_frame_size ≡ 0
      → publish convert pamqp rounds exchange routing_key mandatory immediate d
        ≡ (raise zero_division, with_properties)
  unfolding publish
  publish_zero m = ground arith

-- Publishing on a channel that can write and is not in confirm mode, with a maximum frame size of
-- at least 1: exactly the publish frame, the header with the length of the payload and the coerced
-- properties, and the body frames are queued, in this order, and None is returned. Joined, the body
-- frames are the payload, and each is not empty and within the maximum.
pub publish-writes :
    (convert : Convert) (pamqp : Pamqp) (rounds : ℕ) (exchange : String)
    (routing_key : Option String) (mandatory immediate : Bool) (d : Attached) (payload : List ℕ)
    (properties : Properties)
    → maybe_utf8_encode convert d.message.body ≡ bytes payload
    → coerce_properties convert (prune_invalid_properties convert d.message.properties)
      ≡ (return tt, properties)
    → 0 < d.channel.maximum_frame_size
    → CanWrite d.channel
    → d.channel.publisher_confirms ≡ false
    → (pieces : List (List ℕ)) × (publish convert pamqp rounds exchange routing_key mandatory
          immediate d
        ≡ (
          return none,
          record d {
            message = record d.message { properties = properties };
            channel =
                wrote
                  (message_frames exchange routing_key mandatory immediate
                    (length payload)
                    properties
                    pieces)
                  d.channel;
          },
        ))
      × (concat pieces ≡ payload)
      × All (IsPiece d.channel.maximum_frame_size payload) pieces
publish-writes convert pamqp rounds exchange routing_key mandatory immediate d payload properties
      is_payload coerced m w c =
    let max : ℕ = d.channel.maximum_frame_size in
    let (joined, pieces, _, _) = body_pieces_lem max payload m in
    (
      body_pieces max payload,
      publish-eq convert pamqp rounds exchange routing_key mandatory immediate d payload properties
          is_payload coerced (max - 1) (omega arith) w c,
      joined,
      pieces,
    )

-- With a maximum frame size of 0, which the negotiation yields when neither side sets a limit,
-- every message fails with a division by zero, and nothing is written.
pub publish-zero_division :
    (convert : Convert) (pamqp : Pamqp) (rounds : ℕ) (exchange : String)
    (routing_key : Option String) (mandatory immediate : Bool) (d : Attached) (payload : List ℕ)
    (properties : Properties)
    → maybe_utf8_encode convert d.message.body ≡ bytes payload
    → coerce_properties convert (prune_invalid_properties convert d.message.properties)
      ≡ (return tt, properties)
    → d.channel.maximum_frame_size ≡ 0
    → publish convert pamqp rounds exchange routing_key mandatory immediate d
      ≡ (raise zero_division, record d { message = record d.message { properties = properties } })
publish-zero_division = publish_zero
