-- ===== src/Channel/Wait/Order.antt =====
-- A wait (rabbitpy/base.py, `_wait_on_frame`) among frames that it did not ask for, while the other
-- threads are quiet.
use rabbitpy.Prelude.{
  ℕ, zero, suc, ◌<◌, ◌≡◌, refl, sym, ◌∙◌, ap, Bool, true, false, none, some, List, [], ◌∷◌, ◌++◌,
  arith, if◌then◌else◌, append-nil, append_assoc, length, All,
}
use rabbitpy.Action.{return}
use rabbitpy.Stateful.{is_closed}
use rabbitpy.Frame.{Frame, FrameClass, Pamqp, Expected}
use rabbitpy.Channel.{Channel, Tick, check_for_exceptions, check_for_rpc_request}
use rabbitpy.Channel.Wait.{
  validate_frame_type, normalize, begin, again, Waits, examine, loop, wait_body, wait_rounds,
  wait_on_frame, read_from_queue, interleave,
}

abbrev pub quiet : Tick
quiet = record {
  frames = [];
  written = [];
  exceptions = [];
  connection_state = none;
  interrupt = none;
}

abbrev pub quiet_for : ℕ → List Tick
quiet_for zero = []
quiet_for (suc n) = quiet ∷ quiet_for n

-- The frames on which the channel acts by itself.
abbrev pub is_request : Frame → Bool
is_request (Frame.close FrameClass.channel_close code reason) = true
is_request (Frame.returned code reason exchange key) = true
is_request (Frame.cancel tag nowait) = true
is_request v = false

-- Nothing is wrong: no queued exception, no interrupt, channel and connection not closed.
pub record IsCalm (s : Channel) : Type 0 where
  pub exceptions : s.exceptions ≡ []
  pub interrupt : s.interrupt ≡ none
  pub open_state : is_closed s.state ≡ false
  pub connected : is_closed s.connection_state ≡ false

pub interleave-quiet : (s : Channel) → interleave quiet s ≡ s
unfolding interleave
interleave-quiet s = rw (append-nil s.read_queue, append-nil s.write_queue, append-nil s.exceptions)

pub check-not_request :
    (v : Frame) (s : Channel) → is_request v ≡ false → check_for_rpc_request v s ≡ (return tt, s)
unfolding check_for_rpc_request
check-not_request v s h = ground arith

read-quiet :
    (s : Channel) (u : Frame) (rest : List Frame) (ticks : List Tick)
    → IsCalm s
    → s.read_queue ≡ u ∷ rest
    → s.schedule ≡ quiet ∷ ticks
    → read_from_queue s ≡ (return (some u), record s { read_queue = rest; schedule = ticks })
unfolding read_from_queue
read-quiet s u rest ticks c q t = ground (arith, interleave-quiet (record s { schedule = ticks }))

module _ (pamqp : Pamqp) where
  -- A frame that the wait puts back: no request, and not of the expected type.
  abbrev pub IsPassedOver : Expected → Frame → Type 0
  IsPassedOver e u = (is_request u ≡ false) × (validate_frame_type pamqp u e ≡ false)

  module _ (wait : Waits pamqp) (e : Expected) (s : Channel) (u : Frame) (rest : List Frame)
      (ticks : List Tick) (c : IsCalm s) (q : s.read_queue ≡ u ∷ rest)
      (t : s.schedule ≡ quiet ∷ ticks) (plain : is_request u ≡ false) where
    examine-quiet :
        (b : Bool) (r : Channel)
        → validate_frame_type pamqp u e ≡ b
        → examine pamqp wait e (some u) r ≡ (
            if b
            then (return (some u), record r { waiting = false })
            else (return none, record r { read_queue = r.read_queue ++ u ∷ [] }))
    unfolding examine
    examine-quiet true r v = ground (arith, check-not_request u r plain)
    examine-quiet false r v = ground (arith, check-not_request u r plain)

    loop-match :
        validate_frame_type pamqp u e ≡ true
        → loop pamqp wait s.state e s
          ≡ (return (some u), record s { read_queue = rest; schedule = ticks; waiting = false })
    unfolding loop
    loop-match v = ground (
      arith,
      read-quiet s u rest ticks c q t,
      examine-quiet true (record s { read_queue = rest; schedule = ticks }) v,
      c.open_state,
      c.connected,
    )

    loop-pass :
        validate_frame_type pamqp u e ≡ false
        → loop pamqp wait s.state e s
          ≡ wait (again s.state e) (record s { read_queue = rest ++ u ∷ []; schedule = ticks })
    unfolding loop check_for_exceptions
    loop-pass v = ground (
      arith,
      read-quiet s u rest ticks c q t,
      examine-quiet false (record s { read_queue = rest; schedule = ticks }) v,
      c.open_state,
      c.connected,
      c.exceptions,
      c.interrupt,
    )

  -- The state when the wait has found its frame.
  abbrev pub found_in : Channel → List Frame → List Tick → Channel
  found_in s queue later = record s { read_queue = queue; schedule = later; waiting = false }

  loop-rotates :
      (e : Expected) (later : List Tick) (v : Frame)
      → is_request v ≡ false
      → validate_frame_type pamqp v e ≡ true
      → (rounds : ℕ) (pre mid : List Frame) (s : Channel) → IsCalm s
      → All (IsPassedOver e) pre
      → s.read_queue ≡ pre ++ v ∷ mid
      → s.schedule ≡ quiet_for (length pre) ++ quiet ∷ later
      → length pre < rounds
      → wait_rounds pamqp rounds (again s.state e) s
        ≡ (return (some v), found_in s (mid ++ pre) later)
  unfolding wait_rounds wait_body
  loop-rotates e later v plain match zero pre mid s c p q t h = absurd (omega arith)
  loop-rotates e later v plain match (suc rounds) [] mid s c p q t h =
      loop-match (wait_rounds pamqp rounds) e s v mid later c q t plain match
      ∙ ap (λ l. (return (some v), found_in s l later)) (sym (append-nil mid))
  loop-rotates e later v plain match (suc rounds) (u ∷ pre) mid s c p q t h =
      loop-pass (wait_rounds pamqp rounds) e s u (pre ++ v ∷ mid)
        (quiet_for (length pre) ++ quiet ∷ later) c q t p.0.0 p.0.1
      ∙ loop-rotates e later v plain match rounds pre (mid ++ u ∷ [])
          (record s {
            read_queue = (pre ++ v ∷ mid) ++ u ∷ [];
            schedule = quiet_for (length pre) ++ quiet ∷ later;
          })
          (record {
            exceptions = c.exceptions;
            interrupt = c.interrupt;
            open_state = c.open_state;
            connected = c.connected;
          })
          p.1 (append_assoc pre (v ∷ mid) (u ∷ [])) refl (omega arith)
      ∙ ap (λ l. (return (some v), found_in s l later)) (append_assoc mid (u ∷ []) pre)

  pub begin-eq-again :
      (rounds : ℕ) (e : Expected) (s : Channel)
      → IsCalm s
      → wait_rounds pamqp (suc rounds) (begin e) s
        ≡ wait_rounds pamqp
            (suc rounds)
            (again s.state (normalize pamqp e))
            (record s { waiting = true })
  unfolding wait_rounds wait_body check_for_exceptions
  begin-eq-again rounds e s c = ground (arith, c.exceptions)

  pub validate-normalize :
      (e : Expected) (v : Frame)
      → validate_frame_type pamqp v (normalize pamqp e) ≡ validate_frame_type pamqp v e
  unfolding normalize validate_frame_type
  validate-normalize (Expected.one t) v = refl
  validate-normalize (Expected.any_of []) v = refl
  validate-normalize (Expected.any_of (t ∷ [])) v = ground arith
  validate-normalize (Expected.any_of (t ∷ u ∷ ts)) v = refl

  pub IsPassedOver-normalize :
      (e : Expected) (pre : List Frame)
      → All (IsPassedOver e) pre
      → All (IsPassedOver (normalize pamqp e)) pre
  IsPassedOver-normalize e [] p = tt
  IsPassedOver-normalize e (u ∷ pre) p =
      ((p.0.0, validate-normalize e u ∙ p.0.1), IsPassedOver-normalize e pre p.1)

pub wait_on_frame-rotates :
    (pamqp : Pamqp) (rounds : ℕ) (expected : Expected) (s : Channel) (pre post : List Frame)
    (v : Frame) (later : List Tick)
    → IsCalm s
    → All (IsPassedOver pamqp expected) pre
    → is_request v ≡ false
    → validate_frame_type pamqp v expected ≡ true
    → s.read_queue ≡ pre ++ v ∷ post
    → s.schedule ≡ quiet_for (length pre) ++ quiet ∷ later
    → length pre < rounds
    → wait_on_frame pamqp rounds expected s
      ≡ (return (some v), found_in pamqp s (post ++ pre) later)
unfolding wait_on_frame
wait_on_frame-rotates pamqp zero expected s pre post v later c p plain match q t h =
    absurd (omega arith)
wait_on_frame-rotates pamqp (suc rounds) expected s pre post v later c p plain match q t h =
    begin-eq-again pamqp rounds expected s c
    ∙ loop-rotates pamqp (normalize pamqp expected) later v plain
        (validate-normalize pamqp expected v ∙ match) (suc rounds) pre post
        (record s { waiting = true })
        (record {
          exceptions = c.exceptions;
          interrupt = c.interrupt;
          open_state = c.open_state;
          connected = c.connected;
        })
        (IsPassedOver-normalize pamqp expected pre p) q t h
