-- ===== src/Channel/Wait/Live.antt =====
-- A wait (rabbitpy/base.py, `_wait_on_frame`) whose frame is in the read queue, while the other threads
-- go on to deliver frames and to write.
use rabbitpy.Prelude.{
  ℕ, zero, suc, ◌<◌, ◌≡◌, refl, ◌∙◌, true, false, none, some, List, [], ◌∷◌, ◌++◌, arith,
  append-nil, append_assoc, length, All,
}
use rabbitpy.Action.{return}
use rabbitpy.Frame.{Frame, Pamqp, Expected}
use rabbitpy.Channel.{Channel, Tick, check_for_exceptions}
use rabbitpy.Channel.Wait.{
  validate_frame_type, normalize, again, Waits, loop, wait_body, wait_rounds, wait_on_frame,
  read_from_queue, interleave, examine,
}
use rabbitpy.Channel.Wait.Order.{
  is_request, IsCalm, IsPassedOver, check-not_request, begin-eq-again, validate-normalize,
}

-- The other threads deliver frames and write, and do nothing else.
pub record IsDelivery (t : Tick) : Type 0 where
  pub exceptions : t.exceptions ≡ []
  pub connection_state : t.connection_state ≡ none
  pub interrupt : t.interrupt ≡ none

-- The channel after such an entry of the schedule.
abbrev delivered : Tick → List Tick → Channel → Channel
delivered t ticks s = record s {
  read_queue = s.read_queue ++ t.frames;
  write_queue = s.write_queue ++ t.written;
  schedule = ticks;
}

interleave-delivered :
    (t : Tick) (ticks : List Tick) (s : Channel)
    → IsDelivery t
    → interleave t (record s { schedule = ticks }) ≡ delivered t ticks s
unfolding interleave
interleave-delivered t ticks s d =
    rw (d.exceptions, d.connection_state, d.interrupt, append-nil s.exceptions) refl

-- The frames that a wait reads and puts back, each with what happens while it is read.
abbrev pub frames_of : List (Frame × Tick) → List Frame
frames_of [] = []
frames_of ((u, t) ∷ rest) = u ∷ frames_of rest

abbrev pub ticks_of : List (Frame × Tick) → List Tick
ticks_of [] = []
ticks_of ((u, t) ∷ rest) = t ∷ ticks_of rest

-- What stands in the read queue behind the frames after the one that is found: what arrived, with the
-- frames that were put back among it.
abbrev pub behind : List (Frame × Tick) → (last : Tick) → List Frame
behind [] last = last.frames
behind ((u, t) ∷ rest) last = t.frames ++ u ∷ behind rest last

-- What was written meanwhile.
abbrev pub meanwhile : List (Frame × Tick) → (last : Tick) → List (ℕ × Frame)
meanwhile [] last = last.written
meanwhile ((u, t) ∷ rest) last = t.written ++ meanwhile rest last

module _ (pamqp : Pamqp) where
  module _ (wait : Waits pamqp) (e : Expected) (s : Channel) (u : Frame) (rest : List Frame)
      (t : Tick) (ticks : List Tick) (c : IsCalm s) (d : IsDelivery t) (q : s.read_queue ≡ u ∷ rest)
      (h : s.schedule ≡ t ∷ ticks) (plain : is_request u ≡ false) where
    abbrev after_read : Channel
    after_read = record (delivered t ticks s) { read_queue = rest ++ t.frames }

    read-delivered : read_from_queue s ≡ (return (some u), after_read)
    unfolding read_from_queue
    read-delivered = ground (arith, interleave-delivered t ticks s d)

    examine-match :
        validate_frame_type pamqp u e ≡ true
        → examine pamqp wait e (some u) after_read
          ≡ (return (some u), record after_read { waiting = false })
    unfolding examine
    examine-match v = ground (arith, check-not_request u after_read plain)

    examine-pass :
        validate_frame_type pamqp u e ≡ false
        → examine pamqp wait e (some u) after_read
          ≡ (return none, record after_read { read_queue = (rest ++ t.frames) ++ u ∷ [] })
    unfolding examine
    examine-pass v = ground (arith, check-not_request u after_read plain)

    loop-match :
        validate_frame_type pamqp u e ≡ true
        → loop pamqp wait s.state e s ≡ (return (some u), record after_read { waiting = false })
    unfolding loop
    loop-match v = ground (arith, read-delivered, examine-match v, c.open_state, c.connected)

    loop-pass :
        validate_frame_type pamqp u e ≡ false
        → loop pamqp wait s.state e s
          ≡ wait (again s.state e) (record after_read { read_queue = (rest ++ t.frames) ++ u ∷ [] })
    unfolding loop check_for_exceptions
    loop-pass v = ground (
      arith,
      read-delivered,
      examine-pass v,
      c.open_state,
      c.connected,
      c.exceptions,
      c.interrupt,
    )

  -- The channel when the frame has been found.
  abbrev pub found_among :
      Channel
      → (passed : List (Frame × Tick)) (last : Tick) (post : List Frame) (later : List Tick)
      → Channel
  found_among s passed last post later = record s {
    read_queue = post ++ behind passed last;
    write_queue = s.write_queue ++ meanwhile passed last;
    schedule = later;
    waiting = false;
  }

  loop-finds :
      (e : Expected) (last : Tick) (later : List Tick) (v : Frame)
      → IsDelivery last
      → is_request v ≡ false
      → validate_frame_type pamqp v e ≡ true
      → (rounds : ℕ) (passed : List (Frame × Tick)) (post : List Frame) (s : Channel) → IsCalm s
      → All (λ p. IsPassedOver pamqp e p.0 × IsDelivery p.1) passed
      → s.read_queue ≡ frames_of passed ++ v ∷ post
      → s.schedule ≡ ticks_of passed ++ last ∷ later
      → length passed < rounds
      → wait_rounds pamqp rounds (again s.state e) s
        ≡ (return (some v), found_among s passed last post later)
  unfolding wait_rounds wait_body
  loop-finds e last later v d plain match zero passed post s c p q t h = absurd (omega arith)
  loop-finds e last later v d plain match (suc rounds) [] post s c p q t h =
      loop-match (wait_rounds pamqp rounds) e s v post last later c d q t plain match
  loop-finds e last later v d plain match (suc rounds) ((u, tick) ∷ passed) post s c p q t h =
      let rest : List Frame = frames_of passed ++ v ∷ post in
      let ticks : List Tick = ticks_of passed ++ last ∷ later in
      let r : Channel = record (delivered tick ticks s) {
        read_queue = (rest ++ tick.frames) ++ u ∷ [];
      } in
      loop-pass (wait_rounds pamqp rounds) e s u rest tick ticks c p.0.1 q t p.0.0.0 p.0.0.1
      ∙ loop-finds e last later v d plain match rounds passed (post ++ tick.frames ++ u ∷ []) r
          (record {
            exceptions = c.exceptions;
            interrupt = c.interrupt;
            open_state = c.open_state;
            connected = c.connected;
          })
          p.1 (simp append_assoc) refl (omega arith)
      ∙ simp append_assoc

  passed-normalize :
      (e : Expected) (passed : List (Frame × Tick))
      → All (λ p. IsPassedOver pamqp e p.0 × IsDelivery p.1) passed
      → All (λ p. IsPassedOver pamqp (normalize pamqp e) p.0 × IsDelivery p.1) passed
  passed-normalize e [] p = tt
  passed-normalize e ((u, t) ∷ rest) p =
      (((p.0.0.0, validate-normalize pamqp e u ∙ p.0.0.1), p.0.1), passed-normalize e rest p.1)

-- A wait on an open channel whose read queue holds a frame of the expected type that is no request,
-- behind frames that are passed over (neither requests nor of the type), while the other threads
-- deliver and write any frames but raise nothing, do not interrupt it and leave the connection open:
-- with more rounds than frames are passed over, the wait returns that frame, after one entry of the
-- schedule for each of these frames and one for its own. The read queue keeps every other frame:
-- those behind it, and then all that arrived, with each frame that was passed over where it was put
-- back. On the write queue stands what the others wrote meanwhile; nothing else has changed.
pub wait_on_frame-finds :
    (pamqp : Pamqp) (rounds : ℕ) (expected : Expected) (s : Channel) (passed : List (Frame × Tick))
    (v : Frame) (last : Tick) (post : List Frame) (later : List Tick)
    → IsCalm s
    → All (λ p. IsPassedOver pamqp expected p.0 × IsDelivery p.1) passed
    → IsDelivery last
    → is_request v ≡ false
    → validate_frame_type pamqp v expected ≡ true
    → s.read_queue ≡ frames_of passed ++ v ∷ post
    → s.schedule ≡ ticks_of passed ++ last ∷ later
    → length passed < rounds
    → wait_on_frame pamqp rounds expected s
      ≡ (return (some v), found_among pamqp s passed last post later)
unfolding wait_on_frame
wait_on_frame-finds pamqp zero expected s passed v last post later c p d plain match q t h =
    absurd (omega arith)
wait_on_frame-finds pamqp (suc rounds) expected s passed v last post later c p d plain match q t h =
    begin-eq-again pamqp rounds expected s c
    ∙ loop-finds pamqp (normalize pamqp expected) last later v d plain
        (validate-normalize pamqp expected v ∙ match) (suc rounds) passed post
        (record s { waiting = true })
        (record {
          exceptions = c.exceptions;
          interrupt = c.interrupt;
          open_state = c.open_state;
          connected = c.connected;
        })
        (passed-normalize pamqp expected passed p) q t h
