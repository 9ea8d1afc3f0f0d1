-- ===== src/Channel/Wait/Answer.antt =====
-- Commands that are answered (rabbitpy/base.py, `rpc`): what a caller gets once its command is on
-- the write queue and the server's answer arrives.
use rabbitpy.Prelude.{
  ℕ, zero, suc, ◌<◌, ◌≡◌, refl, ◌∙◌, ap, true, false, some, List, [], ◌∷◌, ◌++◌, map, arith,
  append-nil, length, All,
}
use rabbitpy.Action.{return}
use rabbitpy.Frame.{Frame, Pamqp, Expected, any_of, by_name, class_of}
use rabbitpy.Channel.{Channel, Tick, check_for_exceptions}
use rabbitpy.Channel.Writes.{CanWrite, wrote, write_frame-open}
use rabbitpy.Channel.Wait.{validate_frame_type, wait_on_frame, read_from_queue, interleave, rpc}
use rabbitpy.Channel.Wait.Order.{
  quiet, quiet_for, IsCalm, IsPassedOver, found_in, is_request, wait_on_frame-rotates,
}

-- Frames arrive, and nothing else happens.
abbrev pub arrives : List Frame → Tick
arrives frames = record quiet { frames = frames }

-- The same frames, had they been in the queue before.
abbrev early : List Frame → List Tick → Channel → Channel
early frames ticks s = record s { read_queue = s.read_queue ++ frames; schedule = quiet ∷ ticks }

read-arrives :
    (frames : List Frame) (ticks : List Tick) (s : Channel)
    → IsCalm s
    → s.schedule ≡ arrives frames ∷ ticks
    → read_from_queue s ≡ read_from_queue (early frames ticks s)
unfolding read_from_queue interleave
read-arrives frames ticks s c t =
    ground (
      arith,
      append-nil s.exceptions,
      append-nil s.write_queue,
      append-nil (s.read_queue ++ frames),
    )

module _ (pamqp : Pamqp) where
  wait-arrives :
      (rounds : ℕ) (e : Expected) (frames : List Frame) (ticks : List Tick) (s : Channel)
      → IsCalm s
      → s.schedule ≡ arrives frames ∷ ticks
      → wait_on_frame pamqp (suc rounds) e s
        ≡ wait_on_frame pamqp (suc rounds) e (early frames ticks s)
  unfolding wait_on_frame check_for_exceptions
  wait-arrives rounds e frames ticks s c t = ground (
    arith,
    read-arrives frames ticks (record s { waiting = true })
        (record {
          exceptions = c.exceptions;
          interrupt = c.interrupt;
          open_state = c.open_state;
          connected = c.connected;
        })
        t,
    c.exceptions,
  )

quiet_for_comm :
    (n : ℕ) (ticks : List Tick) → quiet ∷ quiet_for n ++ ticks ≡ quiet_for n ++ quiet ∷ ticks
quiet_for_comm zero ticks = refl
quiet_for_comm (suc n) ticks = ap (λ l. quiet ∷ l) (quiet_for_comm n ticks)

-- A wait on a calm channel for which a frame of the expected type arrives.
pub wait_on_frame-answered :
    (pamqp : Pamqp) (rounds : ℕ) (expected : Expected) (s : Channel) (pre post : List Frame)
    (v : Frame) (later : List Tick)
    → IsCalm s
    → All (IsPassedOver pamqp expected) pre
    → is_request v ≡ false
    → validate_frame_type pamqp v expected ≡ true
    → s.read_queue ≡ pre
    → s.schedule ≡ arrives (v ∷ post) ∷ quiet_for (length pre) ++ later
    → length pre < rounds
    → wait_on_frame pamqp rounds expected s
      ≡ (return (some v), found_in pamqp s (post ++ pre) later)
wait_on_frame-answered pamqp zero expected s pre post v later c p plain match q t h =
    absurd (omega arith)
wait_on_frame-answered pamqp (suc rounds) expected s pre post v later c p plain match q t h =
    let ticks : List Tick = quiet_for (length pre) ++ later in
    wait-arrives pamqp rounds expected (v ∷ post) ticks s c t
    ∙ wait_on_frame-rotates pamqp (suc rounds) expected (early (v ∷ post) ticks s) pre post v later
        (record {
          exceptions = c.exceptions;
          interrupt = c.interrupt;
          open_state = c.open_state;
          connected = c.connected;
        })
        p plain match (ap (λ l. l ++ v ∷ post) q) (quiet_for_comm (length pre) later) h

-- The answers that pamqp names for a command.
abbrev pub answers : Pamqp → Frame → Expected
answers pamqp command = any_of (map by_name (pamqp.valid_responses (class_of command)))

writes : (s : Channel) → IsCalm s → CanWrite s
writes s c = record {
  exceptions = c.exceptions;
  connected = c.connected;
  open_state = c.open_state;
}

pub rpc-sends :
    (pamqp : Pamqp) (rounds : ℕ) (command : Frame) (s : Channel)
    → IsCalm s
    → pamqp.synchronous (class_of command) ≡ true
    → rpc pamqp rounds command s
      ≡ wait_on_frame pamqp rounds (answers pamqp command) (wrote (command ∷ []) s)
unfolding rpc wait_on_frame
rpc-sends pamqp rounds command s c sync =
    ground (arith, write_frame-open command s (writes s c), c.open_state)

-- A synchronous command on a calm channel that is answered: the frame is queued and the answer is
-- returned, wherever it stands among the frames that arrive. The frames of the queue, of which none
-- may be an answer or a request, and the frames behind the answer are kept for later; nothing else
-- changes. The other threads do nothing else while the queue is searched.
pub rpc-answered :
    (pamqp : Pamqp) (rounds : ℕ) (command : Frame) (s : Channel) (pre post : List Frame) (v : Frame)
    (later : List Tick)
    → IsCalm s
    → pamqp.synchronous (class_of command) ≡ true
    → All (IsPassedOver pamqp (answers pamqp command)) pre
    → is_request v ≡ false
    → validate_frame_type pamqp v (answers pamqp command) ≡ true
    → s.read_queue ≡ pre
    → s.schedule ≡ arrives (v ∷ post) ∷ quiet_for (length pre) ++ later
    → length pre < rounds
    → rpc pamqp rounds command s
      ≡ (return (some v), found_in pamqp (wrote (command ∷ []) s) (post ++ pre) later)
rpc-answered pamqp rounds command s pre post v later c sync p plain match q t h =
    rpc-sends pamqp rounds command s c sync
    ∙ wait_on_frame-answered pamqp rounds (answers pamqp command) (wrote (command ∷ []) s) pre post
        v later
        (record {
          exceptions = c.exceptions;
          interrupt = c.interrupt;
          open_state = c.open_state;
          connected = c.connected;
        })
        p plain match q t h
