-- ===== src/Channel/Wait/Total.antt =====
-- Waits and commands need only so many rounds (rabbitpy/base.py): each round reads from the queue,
-- or begins the wait of a cancel command, which then reads.
use rabbitpy.Prelude.{
  ℕ, zero, suc, ◌+◌, ◌*◌, ◌≤◌, ◌<◌, ◌==◌, ◌≡◌, ◌≢◌, ◌⊎◌, Bool, true, false, not, ◌&&◌, String,
  Option, none, some, List, [], ◌∷◌, arith, Bool-cases, inl, inr, length,
}
use rabbitpy.Action.{Outcome, return, raise, blocked, no_fuel}
use rabbitpy.Action.Rules.{Ends, Total, Total-bind}
use rabbitpy.Stateful.{is_closed, is_closing}
use rabbitpy.Frame.{Frame, Pamqp, Expected, class_of}
use rabbitpy.Channel.{
  Channel, Tick, check_for_exceptions, check_for_rpc_request, can_write, write_frame,
}
use rabbitpy.Channel.Wait.{
  Mode, begin, again, Waits, await_response, rpc_with, forget_consumer, send_cancel,
  on_ready_to_cancel, on_interrupt_set, after_loop, finish, keep_or_return, examine, break_or_again,
  after_examine, round, loop, wait_body, wait_rounds, wait_on_frame, rpc, read_from_queue,
  interleave, timed_get, blocking_get_from,
}

-- `f` rounds are enough for two for each entry of the schedule, and `k` more.
abbrev Room : ℕ → ℕ → Channel → Type 0
Room k f s = 2 * length s.schedule + k ≤ f

abbrev Any : {A : Type 0} → A → Channel → Type 0
Any a s = Unit

module _ (k f : ℕ) where
  check_for_exceptions-Total : Total (Room k f) check_for_exceptions (λ _. Room k f)
  unfolding check_for_exceptions
  check_for_exceptions-Total s h = ground arith

  can_write-Total : Total (Room k f) can_write (λ _. Room k f)
  unfolding can_write
  can_write-Total s h = ground arith

  write_frame-Total : (v : Frame) → Total (Room k f) (write_frame v) (λ _. Room k f)
  unfolding write_frame
  write_frame-Total v s h = ground arith

  check_for_rpc_request-Total :
      (v : Frame) → Total (Room k f) (check_for_rpc_request v) (λ _. Room k f)
  unfolding check_for_rpc_request
  check_for_rpc_request-Total v s h = ground arith

  -- A read takes at least one entry of the schedule.
  timed_get-Total : Total (Room k f) timed_get (λ _. Room (k + 2) f)
  unfolding timed_get
  timed_get-Total s h = ground arith

  blocking_get_from-Total :
      (ticks : List Tick) (s : Channel)
      → 2 * length ticks + k ≤ f
      → Ends (λ _. Room (k + 2) f) (blocking_get_from ticks s).0 (blocking_get_from ticks s).1
  unfolding blocking_get_from
  blocking_get_from-Total [] s h = tt
  blocking_get_from-Total (t ∷ ticks) s h =
      ground (arith, blocking_get_from-Total ticks (interleave t (record s { schedule = ticks })))

  read_from_queue-Total : Total (Room k f) read_from_queue (λ _. Room (k + 2) f)
  unfolding read_from_queue
  read_from_queue-Total =
      Total-bind (Room k f) (λ _. Room k f) (λ _. Room (k + 2) f) can_write _ can_write-Total
        λ ready s h. elim (Bool-cases (ready && not (is_closing s.state) && s.blocking_read)) [
          | inl t ↦ rw t (blocking_get_from-Total s.schedule s h)
          | inr t ↦ rw t (timed_get-Total s h)
        ]

module _ (pamqp : Pamqp) where
  -- What a wait needs beyond the two rounds for each entry of the schedule.
  abbrev cost : Mode pamqp → ℕ
  cost (begin e) = 1
  cost (again start_state e) = 2

  module _ (f : ℕ) (wait : Waits pamqp)
      (wait_total : (m : Mode pamqp) → Total (Room (cost m) f) (wait m) Any) where
    await_response-Total : (v : Frame) → Total (Room 1 f) (await_response pamqp wait v) Any
    unfolding await_response
    await_response-Total v s h = elim (Bool-cases (pamqp.synchronous (class_of v))) [
      | inl t ↦ rw t (wait_total (begin _) s h)
      | inr t ↦ rw t tt
    ]

    rpc_with-Total : (v : Frame) → Total (Room 1 f) (rpc_with pamqp wait v) Any
    unfolding rpc_with
    rpc_with-Total v s h = elim (Bool-cases (is_closed s.state)) [
      | inl t ↦ rw t tt
      | inr t ↦ rw t (
          Total-bind (Room 1 f) (λ _. Room 1 f) Any (write_frame v) _ (write_frame-Total 1 f v)
            (λ _. await_response-Total v) s h)
    ]

    send_cancel-Total :
        (tag : String) (nowait : Bool) → Total (Room 1 f) (send_cancel pamqp wait tag nowait) Any
    unfolding send_cancel
    send_cancel-Total tag true s h =
        ground (arith, write_frame-Total 1 f (Frame.cancel tag true) s h)
    send_cancel-Total tag false s h =
        Total-bind (Room 1 f) Any Any (rpc_with pamqp wait (Frame.cancel tag false)) _
          (rpc_with-Total (Frame.cancel tag false)) (λ _ _ _. tt) s h

    on_ready_to_cancel-Total :
        (tag : String) (nowait : Bool)
        → Total (Room 1 f) (on_ready_to_cancel pamqp wait tag nowait) Any
    unfolding on_ready_to_cancel forget_consumer
    on_ready_to_cancel-Total tag nowait =
        Total-bind (Room 1 f) (λ _. Room 1 f) Any check_for_exceptions _
          (check_for_exceptions-Total 1 f)
          λ _ s h. elim (Bool-cases (is_closed s.state)) [
            | inl t ↦ rw t tt
            | inr t ↦ rw t (send_cancel-Total tag nowait _ h)
          ]

    after_loop-Total : (i : Option (String × Bool)) → Total (Room 1 f) (after_loop pamqp wait i) Any
    unfolding after_loop on_interrupt_set
    after_loop-Total none s h = tt
    after_loop-Total (some (tag, nowait)) s h =
        Total-bind (Room 1 f) Any Any (on_interrupt_set pamqp wait (tag, nowait)) _
          (Total-bind (Room 1 f) Any Any (on_ready_to_cancel pamqp wait tag nowait) _
            (on_ready_to_cancel-Total tag nowait) (λ _ _ _. tt))
          (λ _ _ _. tt) s h

    finish-Total : Total (Room 1 f) (finish pamqp wait) Any
    unfolding finish
    finish-Total s h = after_loop-Total s.interrupt (record s { waiting = false }) h

    -- On a closed channel or connection, nothing is awaited any more.
    finish_closed-Total :
        (s : Channel)
        → (is_closed s.state ≡ true) ⊎ (is_closed s.connection_state ≡ true)
        → Ends Any (finish pamqp wait s).0 (finish pamqp wait s).1
    unfolding finish after_loop on_interrupt_set on_ready_to_cancel check_for_exceptions send_cancel
        rpc_with write_frame forget_consumer
    finish_closed-Total s c = ground arith

    keep_or_return-Total :
        (k : ℕ) (v : Frame) (b : Bool)
        → Total (Room k f) (keep_or_return pamqp wait v b) (λ _. Room k f)
    unfolding keep_or_return
    keep_or_return-Total k v true s h = h
    keep_or_return-Total k v false s h = h

    examine-Total :
        (k : ℕ) (e : Expected) (o : Option Frame)
        → Total (Room k f) (examine pamqp wait e o) (λ _. Room k f)
    unfolding examine
    examine-Total k e none s h = h
    examine-Total k e (some v) s h =
        Total-bind (Room k f) (λ _. Room k f) (λ _. Room k f) (check_for_rpc_request v) _
          (check_for_rpc_request-Total k f v) (λ _. keep_or_return-Total k v _) s h

    break_or_again-Total :
        (n : ℕ) (e : Expected) (i : Option (String × Bool))
        → Total (Room 2 f) (break_or_again pamqp wait n e i) Any
    unfolding break_or_again
    break_or_again-Total n e none s h = wait_total (again n e) s h
    break_or_again-Total n e (some args) s h = finish-Total s (omega arith)

    after_examine-Total :
        (n : ℕ) (e : Expected) (o : Option Frame)
        → Total (Room 2 f) (after_examine pamqp wait n e o) Any
    unfolding after_examine
    after_examine-Total n e (some v) s h = tt
    after_examine-Total n e none s h =
        Total-bind (Room 2 f) (λ _. Room 2 f) Any check_for_exceptions _
          (check_for_exceptions-Total 2 f) (λ _ s. break_or_again-Total n e s.interrupt s) s h

    round-Total : (n : ℕ) (e : Expected) → Total (Room 0 f) (round pamqp wait n e) Any
    unfolding round
    round-Total n e =
        Total-bind (Room 0 f) (λ _. Room 2 f) Any read_from_queue _ (read_from_queue-Total 0 f)
          (λ o.
            Total-bind (Room 2 f) (λ _. Room 2 f) Any (examine pamqp wait e o) _
              (examine-Total 2 e o) (after_examine-Total n e))

    loop_again-Total : (n : ℕ) (e : Expected) → Total (Room 1 f) (loop pamqp wait n e) Any
    unfolding loop
    loop_again-Total n e s h =
        elim (Bool-cases
          (n == s.state && not (is_closed s.state) && not (is_closed s.connection_state))) [
            | inl t ↦ rw t (round-Total n e s (omega arith))
            | inr t ↦ rw t (finish-Total s h)
          ]

    loop_begin-Total :
        (e : Expected) (s : Channel)
        → Room 0 f s
        → Ends Any (loop pamqp wait s.state e s).0 (loop pamqp wait s.state e s).1
    unfolding loop
    loop_begin-Total e s h =
        elim (Bool-cases
          (s.state == s.state && not (is_closed s.state) && not (is_closed s.connection_state))) [
            | inl t ↦ rw t (round-Total s.state e s h)
            | inr t ↦ rw t (finish_closed-Total s (ground arith))
          ]

    wait_body-Total : (m : Mode pamqp) → Total (Room (cost m) (suc f)) (wait_body pamqp wait m) Any
    unfolding wait_body
    wait_body-Total (again n e) s h = loop_again-Total n e s (omega arith)
    wait_body-Total (begin e) s h =
        Total-bind (Room 0 f) (λ _. Room 0 f) Any check_for_exceptions _
          (check_for_exceptions-Total 0 f)
          (λ _ s h. loop_begin-Total _ (record s { waiting = true }) h) s (omega arith)

  wait_rounds-Total :
      (rounds : ℕ) (m : Mode pamqp) → Total (Room (cost m) rounds) (wait_rounds pamqp rounds m) Any
  unfolding wait_rounds
  wait_rounds-Total zero (begin e) s h = absurd (omega arith)
  wait_rounds-Total zero (again n e) s h = absurd (omega arith)
  wait_rounds-Total (suc rounds) m s h =
      wait_body-Total rounds (wait_rounds pamqp rounds) (wait_rounds-Total rounds) m s h

Ends-ne-no_fuel : {A : Type 0} (r : Outcome A) (s : Channel) → Ends Any r s → r ≢ no_fuel
Ends-ne-no_fuel (return a) s h e = cc
Ends-ne-no_fuel (raise x) s h e = cc
Ends-ne-no_fuel blocked s h e = cc
Ends-ne-no_fuel no_fuel s h e = h

-- With more rounds than twice the entries of the schedule, a wait ends: it returns, raises, or still
-- waits when the schedule of the other threads has ended. So does a command.
pub wait_on_frame-ne-no_fuel :
    (pamqp : Pamqp) (rounds : ℕ) (expected : Expected) (frame_value : Frame) (s : Channel)
    → 2 * length s.schedule < rounds
    → ((wait_on_frame pamqp rounds expected s).0 ≢ no_fuel)
      × ((rpc pamqp rounds frame_value s).0 ≢ no_fuel)
unfolding wait_on_frame rpc
wait_on_frame-ne-no_fuel pamqp rounds expected frame_value s h = (
  Ends-ne-no_fuel _ (wait_on_frame pamqp rounds expected s).1
      (wait_rounds-Total pamqp rounds (begin expected) s (omega arith)),
  Ends-ne-no_fuel _ (rpc pamqp rounds frame_value s).1 (
      rpc_with-Total pamqp rounds (wait_rounds pamqp rounds) (wait_rounds-Total pamqp rounds)
        frame_value s (omega arith)),
)
