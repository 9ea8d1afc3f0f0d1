-- ===== src/Channel/Wait.antt =====
-- rabbitpy/base.py: `_read_from_queue`, `_validate_frame_type`, `_wait_on_frame`, `rpc` and the
-- interrupt, which call one another. A wait that is interrupted runs `_on_ready_to_cancel`, which
-- may issue a command and wait again, so the recursion takes fuel: `rounds` is a bound on the reads
-- and on the waits that are begun. A wait whose schedule ends is `blocked`.
pub mod Found
pub mod Cancels
pub mod Writes
pub mod Order
pub mod Answer
pub mod Total
pub mod Live
pub mod NoAnswer
use rabbitpy.Prelude.{
  ℕ, zero, suc, ◌+◌, ◌==◌, if◌then◌else◌, Bool, true, false, not, ◌&&◌, ◌||◌, String, Option, none,
  some, List, [], ◌∷◌, ◌++◌, map, str_eq, delete,
}
use rabbitpy.Exceptions.{channel_closed}
use rabbitpy.Action.{
  Action, Outcome, return, raise, blocked, no_fuel, pure, throw, gets, modify, when, ◌>>=◌, ◌>>◌,
}
use rabbitpy.Stateful.{is_closed, is_closing}
use rabbitpy.Frame
use rabbitpy.Frame.{
  Frame, FrameClass, Pamqp, FrameType, by_name, by_class, Expected, one, any_of, class_of,
}
use rabbitpy.Channel.{
  Channel, Tick, check_for_exceptions, can_write, write_frame, check_for_rpc_request,
}

-- The state after the other threads have acted.
unfoldable pub interleave : Tick → Channel → Channel
interleave t s = record s {
  read_queue = s.read_queue ++ t.frames;
  write_queue = s.write_queue ++ t.written;
  exceptions = s.exceptions ++ t.exceptions;
  connection_state = elim t.connection_state [ none ↦ s.connection_state | some state ↦ state ];
  interrupt = elim t.interrupt [ none ↦ s.interrupt | some args ↦ some args ];
}

-- `get()` with the queue as it stands: the front frame, or None for `queue.Empty`.
pop : Action Channel (Option Frame)
pop s = elim s.read_queue [
  | [] ↦ (return none, s)
  | value ∷ rest ↦ (return (some value), record s { read_queue = rest })
]

-- `self._read_queue.get(True, .1)`, with None for `queue.Empty`
timed_get : Action Channel (Option Frame)
unfolding interleave pop
timed_get s = elim s.schedule [
  | [] ↦ (blocked, s)
  | t ∷ ticks ↦ pop (interleave t (record s { schedule = ticks }))
]

-- `self._read_queue.get()` waits until a frame is there.
blocking_get_from : List Tick → Action Channel (Option Frame)
unfolding interleave pop
blocking_get_from [] s = (blocked, s)
blocking_get_from (t ∷ ticks) s =
    let s' = interleave t (record s { schedule = ticks }) in
    elim s'.read_queue [ [] ↦ blocking_get_from ticks s' | _ ∷ _ ↦ pop s' ]

unfoldable pub read_from_queue : Action Channel (Option Frame)
unfolding can_write timed_get blocking_get_from
read_from_queue = do
  ready ← can_write
  λ s.
      if ready && not (is_closing s.state) && s.blocking_read
      then blocking_get_from s.schedule s
      else timed_get s

module _ (pamqp : Pamqp) where
  open pamqp use {class_name, is_method, synchronous, valid_responses}

  abbrev name_of : Frame → String
  name_of frame = class_name (class_of frame)

  validate_one : Frame → FrameType → Bool
  validate_one frame_value (by_name n) = str_eq (name_of frame_value) n
  validate_one frame_value (by_class c) =
      is_method (class_of frame_value) && str_eq (name_of frame_value) (class_name c)

  validate_any : Frame → List FrameType → Bool
  validate_any frame_value [] = false
  validate_any frame_value (t ∷ ts) = validate_one frame_value t || validate_any frame_value ts

  unfoldable pub validate_frame_type : Frame → Expected → Bool
  unfolding validate_one validate_any
  validate_frame_type frame_value (one t) = validate_one frame_value t
  validate_frame_type frame_value (any_of ts) = validate_any frame_value ts

  -- A list of one frame type is taken as that frame type.
  unfoldable pub normalize : Expected → Expected
  normalize (any_of (t ∷ [])) = one t
  normalize e = e

  -- Where a wait stands: at its start, or in its loop with the state in which it started.
  pub data Mode : Type 0 where
    begin : Expected → Mode
    again : (start_state : ℕ) → Expected → Mode

  -- What waits inside a wait call.
  abbrev Waits : Type 0
  Waits = Mode → Action Channel (Option Frame)

  module _ (wait : Waits) where
    -- `if frame_value.synchronous: return self._wait_on_frame(frame_value.valid_responses)`
    pub await_response : Frame → Action Channel (Option Frame)
    await_response frame_value s =
        if synchronous (class_of frame_value)
        then wait (begin (any_of (map by_name (valid_responses (class_of frame_value))))) s
        else (return none, s)

    -- `rpc`, with the wait for the answer as `wait`
    pub rpc_with : Frame → Action Channel (Option Frame)
    unfolding await_response
    rpc_with frame_value s =
        if is_closed s.state
        then (raise channel_closed, s)
        else (write_frame frame_value >> await_response frame_value) s

    forget_consumer : String → Action Channel Unit
    forget_consumer consumer_tag =
        modify (λ s. record s { consumers = delete consumer_tag s.consumers })

    send_cancel : String → (nowait : Bool) → Action Channel Unit
    unfolding rpc_with
    send_cancel consumer_tag true = write_frame (Frame.cancel consumer_tag true)
    send_cancel consumer_tag false = rpc_with (Frame.cancel consumer_tag false) >> pure tt

    -- `Channel._on_ready_to_cancel`
    unfoldable pub on_ready_to_cancel : String → Bool → Action Channel Unit
    unfolding forget_consumer send_cancel
    on_ready_to_cancel consumer_tag nowait = check_for_exceptions >> λ s.
        if is_closed s.state
        then (return tt, s)
        else (forget_consumer consumer_tag >> send_cancel consumer_tag nowait) s

    -- `_on_interrupt_set`
    pub on_interrupt_set : String × Bool → Action Channel Unit
    unfolding on_ready_to_cancel
    on_interrupt_set (consumer_tag, nowait) = do
      on_ready_to_cancel consumer_tag nowait
      modify (λ s. record s { interrupt = none })

    -- `if self._interrupt_is_set: self._on_interrupt_set()`, and the None that is returned
    after_loop : Option (String × Bool) → Action Channel (Option Frame)
    unfolding on_interrupt_set
    after_loop none = pure none
    after_loop (some args) = on_interrupt_set args >> pure none

    -- The end of `_wait_on_frame`, behind its loop.
    finish : Action Channel (Option Frame)
    unfolding after_loop
    finish = do
      modify (λ s. record s { waiting = false })
      interrupt ← gets (λ s. s.interrupt)
      after_loop interrupt

    -- What the loop does with what it read: a frame of the expected type is the result, any other
    -- goes back to the end of the queue.
    keep_or_return : Frame → (matches : Bool) → Action Channel (Option Frame)
    keep_or_return value true = modify (λ s. record s { waiting = false }) >> pure (some value)
    keep_or_return value false =
        modify (λ s. record s { read_queue = s.read_queue ++ value ∷ [] }) >> pure none

    examine : Expected → Option Frame → Action Channel (Option Frame)
    unfolding keep_or_return
    examine expected none = pure none
    examine expected (some value) = do
      check_for_rpc_request value
      keep_or_return value (validate_frame_type value expected)

    -- `if self._interrupt_is_set: break`
    break_or_again :
        (start_state : ℕ) → Expected → Option (String × Bool) → Action Channel (Option Frame)
    unfolding finish
    break_or_again start_state expected none = wait (again start_state expected)
    break_or_again start_state expected (some args) = finish

    -- The rest of a round, with the frame that it found.
    after_examine : (start_state : ℕ) → Expected → Option Frame → Action Channel (Option Frame)
    unfolding break_or_again
    after_examine start_state expected (some frame) = pure (some frame)
    after_examine start_state expected none = do
      check_for_exceptions
      interrupt ← gets (λ s. s.interrupt)
      break_or_again start_state expected interrupt

    round : ℕ → Expected → Action Channel (Option Frame)
    unfolding examine after_examine
    round start_state expected = do
      value ← read_from_queue
      found ← examine expected value
      after_examine start_state expected found

    -- One test of the `while` and, if it holds, one round.
    loop : ℕ → Expected → Action Channel (Option Frame)
    unfolding round finish
    loop start_state expected s =
        if start_state == s.state && not (is_closed s.state) && not (is_closed s.connection_state)
        then round start_state expected s
        else finish s

    wait_body : Mode → Action Channel (Option Frame)
    wait_body (again start_state expected) = loop start_state expected
    wait_body (begin expected) = do
      check_for_exceptions
      start_state ← gets (λ s. s.state)
      modify (λ s. record s { waiting = true })
      loop start_state (normalize expected)

  pub wait_rounds : (rounds : ℕ) → Waits
  unfolding wait_body
  wait_rounds zero mode s = (no_fuel, s)
  wait_rounds (suc rounds) mode s = wait_body (wait_rounds rounds) mode s

  unfoldable pub wait_on_frame : (rounds : ℕ) → Expected → Action Channel (Option Frame)
  unfolding wait_rounds loop
  wait_on_frame rounds expected = wait_rounds rounds (begin expected)

  unfoldable pub rpc : (rounds : ℕ) → Frame → Action Channel (Option Frame)
  unfolding wait_rounds loop rpc_with
  rpc rounds = rpc_with (wait_rounds rounds)
