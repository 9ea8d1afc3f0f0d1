-- ===== src/Channel/Wait/NoAnswer.antt =====
-- A wait, and a command, for which nothing arrives (rabbitpy/base.py, `_wait_on_frame` and `rpc`).
use mathlib.Core.Path.{subst}
use rabbitpy.Prelude.{
  sym, ◌==◌, if◌then◌else◌, ◌&&◌, ℕ, zero, suc, ◌⊎◌, inl, inr, not, ◌<◌, ◌≡◌, refl, Bool, true,
  false, none, List, [], ◌∷◌, arith,
}
use rabbitpy.Action.{Outcome, blocked, return}
use rabbitpy.Stateful.{is_closed, is_closing}
use rabbitpy.Frame.{Frame, Pamqp, Expected, class_of}
use rabbitpy.Channel.{Channel, Tick, check_for_exceptions}
use rabbitpy.Channel.Writes.{wrote}
use rabbitpy.Channel.Wait.{
  wait_on_frame, wait_rounds, loop, read_from_queue, blocking_get_from, timed_get, rpc, normalize,
  again, Waits, wait_body,
}
use rabbitpy.Channel.Wait.Order.{quiet, quiet_for, IsCalm, interleave-quiet, begin-eq-again}
use rabbitpy.Channel.Wait.Answer.{answers, rpc-sends}

-- Code that still waits, and has written nothing since `s`.
pub record Blocked {A : Type 0} (s : Channel) (r : Outcome A × Channel) : Type 0 where
  pub waits : r.0 ≡ blocked
  pub written : r.1.write_queue ≡ s.write_queue

module _ (s : Channel) (ticks : List Tick) (q : s.read_queue ≡ []) where
  blocking_get-quiet :
      blocking_get_from (quiet ∷ ticks) s ≡ blocking_get_from ticks (record s { schedule = ticks })
  unfolding blocking_get_from
  blocking_get-quiet = ground (arith, interleave-quiet (record s { schedule = ticks }), q)

  timed_get-quiet :
      s.schedule ≡ quiet ∷ ticks → timed_get s ≡ (return none, record s { schedule = ticks })
  unfolding timed_get
  timed_get-quiet t = ground (arith, interleave-quiet (record s { schedule = ticks }), q)

blocking_get-Blocked :
    (n : ℕ) (s : Channel) → s.read_queue ≡ [] → Blocked s (blocking_get_from (quiet_for n) s)
unfolding blocking_get_from
blocking_get-Blocked zero s q = record { waits = refl; written = refl }
blocking_get-Blocked (suc n) s q =
    let b = blocking_get-Blocked n (record s { schedule = quiet_for n }) q in
    rw (blocking_get-quiet s (quiet_for n) q) (record { waits = b.waits; written = b.written })

abbrev blocks : Channel → Bool
blocks s = not (is_closing s.state) && s.blocking_read

read_from_queue-open :
    (s : Channel)
    → IsCalm s
    → read_from_queue s ≡ (if blocks s then blocking_get_from s.schedule s else timed_get s)
unfolding read_from_queue
read_from_queue-open s c = ground (arith, c.exceptions, c.open_state, c.connected)

-- A read of the empty queue either waits for good or ends without a frame.
read-blocks :
    (s : Channel)
    → IsCalm s
    → s.read_queue ≡ []
    → s.schedule ≡ []
    → read_from_queue s ≡ (blocked, s)
unfolding blocking_get_from timed_get
read-blocks s c q t = ground (arith, read_from_queue-open s c)

read-again :
    (n : ℕ) (s : Channel)
    → IsCalm s
    → s.read_queue ≡ []
    → s.schedule ≡ quiet_for (suc n)
    → Blocked s (read_from_queue s)
      ⊎ (read_from_queue s ≡ (return none, record s { schedule = quiet_for n }))
read-again n s c q t = rw (read_from_queue-open s c) (by_mode (blocks s))
  where
    by_mode :
        (b : Bool)
        → Blocked s (if b then blocking_get_from s.schedule s else timed_get s)
          ⊎ ((if b then blocking_get_from s.schedule s else timed_get s)
              ≡ (return none, record s { schedule = quiet_for n }))
    by_mode true = inl (
        subst (λ ticks. Blocked s (blocking_get_from ticks s)) (sym t)
          (blocking_get-Blocked (suc n) s q))
    by_mode false = inr (timed_get-quiet s (quiet_for n) q t)

module _ (pamqp : Pamqp) (wait : Waits pamqp) (e : Expected) (s : Channel) (c : IsCalm s) where
  is_waiting :
      (s.state == s.state && not (is_closed s.state) && not (is_closed s.connection_state)) ≡ true
  is_waiting = ground (arith, c.open_state, c.connected)

  loop-blocks : Blocked s (read_from_queue s) → Blocked s (loop pamqp wait s.state e s)
  unfolding loop
  loop-blocks b = rw (is_waiting, b.waits) (record { waits = refl; written = b.written })

  loop-again :
      (ticks : List Tick)
      → read_from_queue s ≡ (return none, record s { schedule = ticks })
      → loop pamqp wait s.state e s ≡ wait (again s.state e) (record s { schedule = ticks })
  unfolding loop check_for_exceptions
  loop-again ticks r = ground (arith, r, is_waiting, c.exceptions, c.interrupt)

module _ (pamqp : Pamqp) (e : Expected) where
  -- The loop on a calm channel, while nothing arrives.
  again-Blocked :
      (rounds n : ℕ) (s : Channel)
      → IsCalm s
      → s.read_queue ≡ []
      → s.schedule ≡ quiet_for n
      → n < rounds
      → Blocked s (wait_rounds pamqp rounds (again s.state e) s)
  unfolding wait_rounds wait_body
  again-Blocked zero n s c q t h = absurd (omega arith)
  again-Blocked (suc rounds) zero s c q t h =
      loop-blocks pamqp (wait_rounds pamqp rounds) e s c
        (rw (read-blocks s c q t) (record { waits = refl; written = refl }))
  again-Blocked (suc rounds) (suc n) s c q t h = elim (read-again n s c q t) [
    | inl b ↦ loop-blocks pamqp (wait_rounds pamqp rounds) e s c b
    | inr r ↦
        let later : Channel = record s { schedule = quiet_for n } in
        let b =
          again-Blocked rounds n later
            (record {
              exceptions = c.exceptions;
              interrupt = c.interrupt;
              open_state = c.open_state;
              connected = c.connected;
            })
            q refl (omega arith) in
        rw (loop-again pamqp (wait_rounds pamqp rounds) e s c (quiet_for n) r)
          (record { waits = b.waits; written = b.written })
  ]

-- A wait on a calm channel with an empty read queue, while the other threads do nothing: it never
-- ends, and it writes nothing.
pub wait_on_frame-Blocked :
    (pamqp : Pamqp) (rounds n : ℕ) (expected : Expected) (s : Channel)
    → IsCalm s
    → s.read_queue ≡ []
    → s.schedule ≡ quiet_for n
    → n < rounds
    → Blocked s (wait_on_frame pamqp rounds expected s)
unfolding wait_on_frame
wait_on_frame-Blocked pamqp zero n expected s c q t h = absurd (omega arith)
wait_on_frame-Blocked pamqp (suc rounds) n expected s c q t h =
    let b =
      again-Blocked pamqp (normalize pamqp expected) (suc rounds) n (record s { waiting = true })
        (record {
          exceptions = c.exceptions;
          interrupt = c.interrupt;
          open_state = c.open_state;
          connected = c.connected;
        })
        q t h in
    rw (begin-eq-again pamqp rounds expected s c) (record { waits = b.waits; written = b.written })

-- A synchronous command without an answer: its frame is queued, and it never returns.
pub rpc-Blocked :
    (pamqp : Pamqp) (rounds n : ℕ) (frame : Frame) (s : Channel)
    → IsCalm s
    → pamqp.synchronous (class_of frame) ≡ true
    → s.read_queue ≡ []
    → s.schedule ≡ quiet_for n
    → n < rounds
    → Blocked (wrote (frame ∷ []) s) (rpc pamqp rounds frame s)
rpc-Blocked pamqp rounds n frame s c sync q t h = rw (rpc-sends pamqp rounds frame s c sync) (
    wait_on_frame-Blocked pamqp rounds n (answers pamqp frame) (wrote (frame ∷ []) s)
      (record {
        exceptions = c.exceptions;
        interrupt = c.interrupt;
        open_state = c.open_state;
        connected = c.connected;
      })
      q t h)
