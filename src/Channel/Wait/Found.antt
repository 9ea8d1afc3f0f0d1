-- ===== src/Channel/Wait/Found.antt =====
-- What a wait returns (rabbitpy/base.py, `_wait_on_frame` and `rpc`) is a frame that was asked for.
use rabbitpy.Prelude.{
  ℕ, zero, suc, ◌≡◌, Bool, true, ◌==◌, not, ◌&&◌, String, Option, none, some, [], ◌∷◌, arith,
  Bool-cases, inl, inr,
}
use rabbitpy.Action.{return}
use rabbitpy.Action.Rules.{Ensures, Ensures-bind}
use rabbitpy.Stateful.{is_closed}
use rabbitpy.Frame.{Frame, Pamqp, Expected, one, any_of}
use rabbitpy.Channel.{Channel, check_for_exceptions}
use rabbitpy.Channel.Wait.{
  validate_frame_type, normalize, Mode, begin, again, Waits, finish, examine, break_or_again,
  after_examine, round, loop, wait_body, wait_rounds, wait_on_frame, read_from_queue,
}

module _ (pamqp : Pamqp) where
  -- No frame, or one of the expected type.
  abbrev pub Found : Expected → Option Frame → Type 0
  Found expected none = Unit
  Found expected (some value) = validate_frame_type pamqp value expected ≡ true

  abbrev pub expected_of : Mode pamqp → Expected
  expected_of (begin e) = normalize pamqp e
  expected_of (again start_state e) = e

  module _ (wait : Waits pamqp)
      (wait_found : (m : Mode pamqp) → Ensures (wait m) (Found (expected_of m))) where
    examine-Found : (e : Expected) (o : Option Frame) → Ensures (examine pamqp wait e o) (Found e)
    unfolding examine
    examine-Found e none s none h = tt
    examine-Found e none s (some v) h = cc
    examine-Found e (some value) s none h = tt
    examine-Found e (some value) s (some v) h = ground arith

    finish-Found : (e : Expected) → Ensures (finish pamqp wait) (Found e)
    unfolding finish
    finish-Found e s none h = tt
    finish-Found e s (some v) h = ground arith

    break_or_again-Found :
        (n : ℕ) (e : Expected) (i : Option (String × Bool))
        → Ensures (break_or_again pamqp wait n e i) (Found e)
    unfolding break_or_again
    break_or_again-Found n e none s r h = wait_found (again n e) s r h
    break_or_again-Found n e (some args) s r h = finish-Found e s r h

    after_examine-Found :
        (n : ℕ) (e : Expected) (o : Option Frame)
        → Found e o
        → Ensures (after_examine pamqp wait n e o) (Found e)
    unfolding after_examine
    after_examine-Found n e (some v) q s none h = cc
    after_examine-Found n e (some v) q s (some w) h = ground arith
    after_examine-Found n e none q s r h =
        Ensures-bind (Found e) (λ _. Unit) check_for_exceptions _ (λ _ _ _. tt)
          (λ _ _ s r h. break_or_again-Found n e s.interrupt s r h) s r h

    round-Found : (n : ℕ) (e : Expected) → Ensures (round pamqp wait n e) (Found e)
    unfolding round
    round-Found n e =
        Ensures-bind (Found e) (λ _. Unit) read_from_queue _ (λ _ _ _. tt)
          (λ o _.
            Ensures-bind (Found e) (Found e) (examine pamqp wait e o) _ (examine-Found e o)
              (after_examine-Found n e))

    loop-Found : (n : ℕ) (e : Expected) → Ensures (loop pamqp wait n e) (Found e)
    unfolding loop
    loop-Found n e s r h =
        elim (Bool-cases
          (n == s.state && not (is_closed s.state) && not (is_closed s.connection_state))) [
            | inl t ↦ round-Found n e s r (rw t at h)
            | inr t ↦ finish-Found e s r (rw t at h)
          ]

    wait_body-Found : (m : Mode pamqp) → Ensures (wait_body pamqp wait m) (Found (expected_of m))
    unfolding wait_body
    wait_body-Found (again n e) = loop-Found n e
    wait_body-Found (begin e) =
        Ensures-bind (Found (normalize pamqp e)) (λ _. Unit) check_for_exceptions _ (λ _ _ _. tt)
          (λ _ _ s r h. loop-Found s.state (normalize pamqp e) (record s { waiting = true }) r h)

  wait_rounds-Found :
      (rounds : ℕ) (m : Mode pamqp) → Ensures (wait_rounds pamqp rounds m) (Found (expected_of m))
  unfolding wait_rounds
  wait_rounds-Found zero m s r h = cc
  wait_rounds-Found (suc rounds) m s r h =
      wait_body-Found (wait_rounds pamqp rounds) (wait_rounds-Found rounds) m s r h

  -- Asking for a list of one frame type is asking for that type.
  normalize-Found : (e : Expected) (o : Option Frame) → Found (normalize pamqp e) o → Found e o
  unfolding normalize validate_frame_type
  normalize-Found e none h = tt
  normalize-Found (one t) (some v) h = h
  normalize-Found (any_of []) (some v) h = h
  normalize-Found (any_of (t ∷ [])) (some v) h = ground arith
  normalize-Found (any_of (t ∷ u ∷ ts)) (some v) h = h

-- A wait that returns has found nothing, or a frame of the type or of one of the types that were
-- asked for, whatever the other threads did and however often the wait was interrupted.
pub wait_on_frame-Found :
    (pamqp : Pamqp) (rounds : ℕ) (expected : Expected) (s : Channel) (found : Option Frame)
    → (wait_on_frame pamqp rounds expected s).0 ≡ return found
    → Found pamqp expected found
unfolding wait_on_frame
wait_on_frame-Found pamqp rounds expected s found h =
    normalize-Found pamqp expected found (wait_rounds-Found pamqp rounds (begin expected) s found h)
