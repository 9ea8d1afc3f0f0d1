-- ===== src/Channel/Content/Whole.antt =====
-- A message whose frames have arrived is received whole (rabbitpy/channel.py,
-- `_wait_for_content_frames`).
use rabbitpy.Prelude.{
  ℕ, zero, suc, ◌+◌, ◌<◌, ◌≡◌, refl, ◌∙◌, ap, true, false, ◌&&◌, String, some, List, [], ◌∷◌, ◌++◌,
  map, arith, append-nil, append_assoc, length, length-append, All, is_empty,
}
use rabbitpy.Action.{return}
use rabbitpy.Frame.{Frame, Pamqp, PropertyValue, one, by_name}
use rabbitpy.Channel.{Channel, Tick}
use rabbitpy.Channel.Wait.{validate_frame_type}
use rabbitpy.Channel.Wait.Order.{
  quiet, quiet_for, IsCalm, found_in, is_request, wait_on_frame-rotates, check-not_request,
}
use rabbitpy.Channel.Content.{is_deliver, is_done, wait_for, body_loop, wait_for_content_frames}
use rabbitpy.Message.Body.{concat}

-- pamqp's names of the content frames, and their truth in a test.
pub record IsContent (pamqp : Pamqp) : Type 0 where
  pub header_fits :
      (n : ℕ) (p : List (String × PropertyValue))
      → validate_frame_type pamqp (Frame.header n p) (one (by_name "ContentHeader")) ≡ true
  pub body_fits :
      (v : List ℕ) → validate_frame_type pamqp (Frame.body v) (one (by_name "ContentBody")) ≡ true
  pub header_holds :
      (n : ℕ) (p : List (String × PropertyValue)) → pamqp.truthy (Frame.header n p) ≡ true
  pub body_holds : (v : List ℕ) → 0 < length v → pamqp.truthy (Frame.body v) ≡ true

-- The channel takes this message: it is calm, not closing, and a delivery has a consumer.
pub record Takes (method_frame : Frame) (s : Channel) : Type 0 where
  pub calm : IsCalm s
  pub not_done : is_done s ≡ false
  pub consumed : (is_deliver method_frame && is_empty s.consumers) ≡ false

module _ (pamqp : Pamqp) (names : IsContent pamqp) (rounds : ℕ) (method_frame : Frame) (size : ℕ)
    (properties : List (String × PropertyValue)) (rest : List Frame) (later : List Tick)
    (s : Channel) (takes : Takes method_frame s) where
  IsCalm-in : (queue : List Frame) (ticks : List Tick) → IsCalm (found_in pamqp s queue ticks)
  IsCalm-in queue ticks = record {
    exceptions = takes.calm.exceptions;
    interrupt = takes.calm.interrupt;
    open_state = takes.calm.open_state;
    connected = takes.calm.connected;
  }

  -- The frame in front of the queue is the one that is awaited.
  wait-front :
      (name : String) (v : Frame) (queue : List Frame) (ticks : List Tick)
      → is_request v ≡ false
      → validate_frame_type pamqp v (one (by_name name)) ≡ true
      → wait_for pamqp (suc rounds) name (found_in pamqp s (v ∷ queue) (quiet ∷ ticks))
        ≡ (return (some v), found_in pamqp s queue ticks)
  unfolding wait_for
  wait-front name v queue ticks plain fits =
      wait_on_frame-rotates pamqp (suc rounds) (one (by_name name))
        (found_in pamqp s (v ∷ queue) (quiet ∷ ticks)) [] queue v ticks
        (IsCalm-in (v ∷ queue) (quiet ∷ ticks)) tt plain fits refl refl (omega arith)
      ∙ ap (λ l. (return (some v), found_in pamqp s l ticks)) (append-nil queue)

  body_loop-step :
      (parts : ℕ) (v got : List ℕ) (queue : List Frame) (ticks : List Tick)
      → 0 < length v
      → length got < size
      → body_loop pamqp
          (suc rounds)
          method_frame
          (Frame.header size properties)
          (suc parts)
          got
          (found_in pamqp s (Frame.body v ∷ queue) (quiet ∷ ticks))
        ≡ body_loop pamqp
            (suc rounds)
            method_frame
            (Frame.header size properties)
            parts
            (got ++ v)
            (found_in pamqp s queue ticks)
  unfolding body_loop
  body_loop-step parts v got queue ticks positive short = ground (
    arith,
    wait-front "ContentBody" (Frame.body v) queue ticks refl (names.body_fits v),
    check-not_request (Frame.body v) (found_in pamqp s queue ticks) refl,
    names.body_holds v positive,
    takes.not_done,
    takes.consumed,
    takes.calm.interrupt,
  )

  body_loop-whole :
      (parts : ℕ) (pieces : List (List ℕ)) (got : List ℕ)
      → All (λ v. 0 < length v) pieces
      → length got + length (concat pieces) ≡ size
      → length pieces < parts
      → body_loop pamqp
          (suc rounds)
          method_frame
          (Frame.header size properties)
          parts
          got
          (found_in pamqp s (map Frame.body pieces ++ rest) (quiet_for (length pieces) ++ later))
        ≡ (
          return (
              some (record {
                method = method_frame;
                properties = properties;
                body = got ++ concat pieces;
              })),
          found_in pamqp s rest later,
        )
  unfolding body_loop
  body_loop-whole zero pieces got p e h = absurd (omega arith)
  body_loop-whole (suc parts) [] got p e h = ground (arith, append-nil got)
  body_loop-whole (suc parts) (v ∷ pieces) got p e h =
      let sizes : length (v ++ concat pieces) ≡ length v + length (concat pieces) =
        length-append v (concat pieces) in
      let grown : length (got ++ v) ≡ length got + length v = length-append got v in
      body_loop-step parts v got (map Frame.body pieces ++ rest)
        (quiet_for (length pieces) ++ later) p.0 (omega arith)
      ∙ body_loop-whole parts pieces (got ++ v) p.1 (omega arith) (omega arith)
      ∙ ap
          (λ b. (
            return (some (record { method = method_frame; properties = properties; body = b })),
            found_in pamqp s rest later,
          ))
          (append_assoc got v (concat pieces))

-- With pamqp's names and truth of the content frames, a message whose header and body frames stand
-- at the front of the read queue, with a header that gives the length of the body and no empty body
-- frame, is received whole on a channel that takes it: its properties are the header's and its body
-- is that of the frames, joined. Exactly these frames are taken from the queue. `parts`, the fuel,
-- must exceed the number of body frames.
pub wait_for_content_frames-whole :
    (pamqp : Pamqp) (rounds parts : ℕ) (method_frame : Frame)
    (properties : List (String × PropertyValue)) (pieces : List (List ℕ)) (rest : List Frame)
    (later : List Tick) (s : Channel)
    → IsContent pamqp
    → Takes method_frame s
    → All (λ v. 0 < length v) pieces
    → s.read_queue
      ≡ Frame.header (length (concat pieces)) properties ∷ map Frame.body pieces ++ rest
    → s.schedule ≡ quiet ∷ quiet_for (length pieces) ++ later
    → length pieces < parts
    → wait_for_content_frames pamqp (suc rounds) parts method_frame s ≡ (
      return
          (some (record { method = method_frame; properties = properties; body = concat pieces })),
      found_in pamqp s rest later,
    )
unfolding wait_for_content_frames
wait_for_content_frames-whole pamqp rounds parts method_frame properties pieces rest later s names
      takes p q t h =
    let size : ℕ = length (concat pieces) in
    let queue : List Frame = map Frame.body pieces ++ rest in
    let ticks : List Tick = quiet_for (length pieces) ++ later in
    let header : Frame = Frame.header size properties in
    ground (
      arith,
      wait_on_frame-rotates pamqp (suc rounds) (one (by_name "ContentHeader")) s [] queue header
            ticks takes.calm tt refl (names.header_fits size properties) q t (omega arith)
          ∙ ap (λ l. (return (some header), found_in pamqp s l ticks)) (append-nil queue),
      check-not_request header (found_in pamqp s queue ticks) refl,
      names.header_holds size properties,
      takes.not_done,
      takes.consumed,
      takes.calm.interrupt,
      body_loop-whole pamqp names rounds method_frame size properties rest later s takes parts
          pieces [] p (omega arith) h,
    )
