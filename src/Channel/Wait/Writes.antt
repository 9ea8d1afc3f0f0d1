-- ===== src/Channel/Wait/Writes.antt =====
-- What waits and commands put on the shared write queue (rabbitpy/base.py).
use mathlib.Core.Path.{subst}
use rabbitpy.Prelude.{
  ℕ, zero, suc, ◌==◌, ◌≡◌, refl, sym, ◌∙◌, Bool, true, false, not, ◌&&◌, String, Option, none, some,
  List, [], ◌∷◌, ◌++◌, arith, Bool-cases, inl, inr, append-nil,
}
use rabbitpy.Action.{◌>>◌}
use rabbitpy.Action.Rules.{Keeps, Keeps-bind}
use rabbitpy.Stateful.{is_closed}
use rabbitpy.Frame.{Frame, Pamqp, Expected, class_of}
use rabbitpy.Channel.{Channel, Tick, check_for_exceptions, check_for_rpc_request, write_frame}
use rabbitpy.Channel.Writes.{CanWrite, wrote, write_frame-open}
use rabbitpy.Channel.Wait.{
  Mode, begin, again, Waits, await_response, rpc_with, forget_consumer, send_cancel,
  on_ready_to_cancel, on_interrupt_set, after_loop, finish, keep_or_return, examine, break_or_again,
  after_examine, round, loop, wait_body, wait_rounds, wait_on_frame, rpc, read_from_queue,
}
use rabbitpy.Channel.Wait.Cancels.{
  Cancels, neither, Cancels-same, check_for_exceptions-Cancels, check_for_rpc_request-Cancels,
  write_frame-cancels, read_from_queue-Cancels,
}

module _ (before : List (ℕ × Frame)) (id : ℕ) (ticks : List Tick) where
  abbrev Ok : Channel → Type 0
  Ok s = Cancels before id ticks s

  module _ (pamqp : Pamqp) (wait : Waits pamqp)
      (wait-Cancels : (m : Mode pamqp) → Keeps Ok (wait m)) where
    await_response-Cancels : (v : Frame) → Keeps Ok (await_response pamqp wait v)
    unfolding await_response
    await_response-Cancels v s c = elim (Bool-cases (pamqp.synchronous (class_of v))) [
      | inl h ↦ rw h (wait-Cancels _ s c)
      | inr h ↦ rw h c
    ]

    send_cancel-Cancels :
        (tag : String) (nowait : Bool) → Keeps Ok (send_cancel pamqp wait tag nowait)
    unfolding send_cancel rpc_with
    send_cancel-Cancels tag true s c = (write_frame-cancels before id ticks) tag true s c
    send_cancel-Cancels tag false s c = elim (Bool-cases (is_closed s.state)) [
      | inl h ↦ rw h c
      | inr h ↦ rw h (
          Keeps-bind Ok
            (write_frame (Frame.cancel tag false)
              >> await_response pamqp wait (Frame.cancel tag false))
            _
            (Keeps-bind Ok (write_frame (Frame.cancel tag false)) _
              (write_frame-cancels before id ticks tag false)
              (λ _. await_response-Cancels (Frame.cancel tag false)))
            (λ _ s c. c) s c)
    ]

    on_ready_to_cancel-Cancels :
        (tag : String) (nowait : Bool) → Keeps Ok (on_ready_to_cancel pamqp wait tag nowait)
    unfolding on_ready_to_cancel forget_consumer
    on_ready_to_cancel-Cancels tag nowait =
        Keeps-bind Ok check_for_exceptions _ (check_for_exceptions-Cancels before id ticks) λ _ s c.
          elim (Bool-cases (is_closed s.state)) [
            | inl h ↦ rw h c
            | inr h ↦ rw h (
                send_cancel-Cancels tag nowait _
                  (Cancels-same before id ticks s _ refl refl refl c))
          ]

    after_loop-Cancels : (i : Option (String × Bool)) → Keeps Ok (after_loop pamqp wait i)
    unfolding after_loop on_interrupt_set
    after_loop-Cancels none s c = c
    after_loop-Cancels (some (tag, nowait)) s c =
        Keeps-bind Ok (on_interrupt_set pamqp wait (tag, nowait)) _
          (Keeps-bind Ok (on_ready_to_cancel pamqp wait tag nowait) _
            (on_ready_to_cancel-Cancels tag nowait)
            (λ _ s c. (Cancels-same before id ticks) s _ refl refl refl c))
          (λ _ s c. c) s c

    finish-Cancels : Keeps Ok (finish pamqp wait)
    unfolding finish
    finish-Cancels s c =
        after_loop-Cancels s.interrupt (record s { waiting = false })
          (Cancels-same before id ticks s _ refl refl refl c)

    keep_or_return-Cancels : (v : Frame) (b : Bool) → Keeps Ok (keep_or_return pamqp wait v b)
    unfolding keep_or_return
    keep_or_return-Cancels v true s c = (Cancels-same before id ticks) s _ refl refl refl c
    keep_or_return-Cancels v false s c = (Cancels-same before id ticks) s _ refl refl refl c

    examine-Cancels : (e : Expected) (o : Option Frame) → Keeps Ok (examine pamqp wait e o)
    unfolding examine
    examine-Cancels e none s c = c
    examine-Cancels e (some v) s c =
        Keeps-bind Ok (check_for_rpc_request v) _ (check_for_rpc_request-Cancels before id ticks v)
          (λ _. keep_or_return-Cancels v _) s c

    break_or_again-Cancels :
        (n : ℕ) (e : Expected) (i : Option (String × Bool))
        → Keeps Ok (break_or_again pamqp wait n e i)
    unfolding break_or_again
    break_or_again-Cancels n e none s c = wait-Cancels (again n e) s c
    break_or_again-Cancels n e (some args) s c = finish-Cancels s c

    after_examine-Cancels :
        (n : ℕ) (e : Expected) (o : Option Frame) → Keeps Ok (after_examine pamqp wait n e o)
    unfolding after_examine
    after_examine-Cancels n e (some v) s c = c
    after_examine-Cancels n e none s c =
        Keeps-bind Ok check_for_exceptions _ (check_for_exceptions-Cancels before id ticks)
          (λ _ s c. break_or_again-Cancels n e s.interrupt s c) s c

    round-Cancels : (n : ℕ) (e : Expected) → Keeps Ok (round pamqp wait n e)
    unfolding round
    round-Cancels n e =
        Keeps-bind Ok read_from_queue _ (read_from_queue-Cancels before id ticks) (λ o.
          Keeps-bind Ok (examine pamqp wait e o) _ (examine-Cancels e o)
            (after_examine-Cancels n e))

    loop-Cancels : (n : ℕ) (e : Expected) → Keeps Ok (loop pamqp wait n e)
    unfolding loop
    loop-Cancels n e s c =
        elim (Bool-cases
          (n == s.state && not (is_closed s.state) && not (is_closed s.connection_state))) [
            | inl h ↦ rw h (round-Cancels n e s c)
            | inr h ↦ rw h (finish-Cancels s c)
          ]

    wait_body-Cancels : (m : Mode pamqp) → Keeps Ok (wait_body pamqp wait m)
    unfolding wait_body
    wait_body-Cancels (again n e) s c = loop-Cancels n e s c
    wait_body-Cancels (begin e) s c =
        Keeps-bind Ok check_for_exceptions _ (check_for_exceptions-Cancels before id ticks)
          (λ _ s c.
            loop-Cancels s.state _ (record s { waiting = true })
              (Cancels-same before id ticks s _ refl refl refl c))
          s c

  wait_rounds-Cancels :
      (pamqp : Pamqp) (rounds : ℕ) (m : Mode pamqp) → Keeps Ok (wait_rounds pamqp rounds m)
  unfolding wait_rounds
  wait_rounds-Cancels pamqp zero m s c = c
  wait_rounds-Cancels pamqp (suc rounds) m s c =
      wait_body-Cancels pamqp (wait_rounds pamqp rounds) (wait_rounds-Cancels pamqp rounds) m s c

-- Nothing was added yet.
unchanged :
    (before : List (ℕ × Frame)) (s : Channel)
    → s.write_queue ≡ before
    → Cancels before s.channel_id s.schedule s
unchanged before s e = record {
  own = [];
  others = [];
  added = [];
  cancels = tt;
  mixed = neither;
  past = refl;
  appended = e ∙ sym (append-nil before);
  same_id = refl;
}

-- However a wait ends, it writes nothing but Basic.Cancel frames, at the end of the shared write
-- queue and under its own channel id, among what the other threads write there meanwhile.
pub wait_on_frame-Cancels :
    (pamqp : Pamqp) (rounds : ℕ) (expected : Expected) (s : Channel)
    → Cancels s.write_queue s.channel_id s.schedule (wait_on_frame pamqp rounds expected s).1
unfolding wait_on_frame
wait_on_frame-Cancels pamqp rounds expected s =
    wait_rounds-Cancels s.write_queue s.channel_id s.schedule pamqp rounds (begin expected) s
      (unchanged s.write_queue s refl)

-- A command on an open channel, with no exception queued, is written first and once. However it
-- ends, all that follows it on the write queue are Basic.Cancel frames of the same channel and,
-- among these in their order, the frames that the other threads wrote in the time that has passed.
pub rpc-Cancels :
    (pamqp : Pamqp) (rounds : ℕ) (frame_value : Frame) (s : Channel)
    → CanWrite s
    → Cancels
        (s.write_queue ++ (s.channel_id, frame_value) ∷ [])
        s.channel_id
        s.schedule
        (rpc pamqp rounds frame_value s).1
unfolding rpc
rpc-Cancels pamqp rounds frame_value s w =
    let wait = wait_rounds pamqp rounds in
    let before : List (ℕ × Frame) = s.write_queue ++ (s.channel_id, frame_value) ∷ [] in
    let written : await_response pamqp wait frame_value (wrote (frame_value ∷ []) s)
        ≡ rpc pamqp rounds frame_value s =
      ground (arith, write_frame-open frame_value s w, w.open_state) in
    subst (λ t. Cancels before s.channel_id s.schedule t.1) written
      (await_response-Cancels before s.channel_id s.schedule pamqp wait
        (wait_rounds-Cancels before s.channel_id s.schedule pamqp rounds) frame_value
        (wrote (frame_value ∷ []) s) (unchanged before (wrote (frame_value ∷ []) s) refl))
