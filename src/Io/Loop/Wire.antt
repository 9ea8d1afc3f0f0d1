-- ===== src/Io/Loop/Wire.antt =====
-- Whole runs of the IO loop (rabbitpy/io.py): every byte goes out once and in order.
use mathlib.Core.Path.{subst}
use rabbitpy.Prelude.{
  ℕ, refl, sym, ◌∙◌, Bool, true, false, not, ◌&&◌, is_empty, List, [], ◌∷◌, ◌++◌, map, arith,
  append-nil, Bool-cases, inl, inr,
}
use rabbitpy.Exceptions.{environment_error}
use rabbitpy.Action.{Action, Outcome, return, raise, blocked, no_fuel, when}
use rabbitpy.Action.Rules.{Keeps, Keeps-bind}
use rabbitpy.Events
use rabbitpy.Io.Loop.{
  Loop, Turn, Recv, received, timed_out, failed, read, drain_queue, clear_trigger, write_if_ready,
  on_poll_ready, on_poll_errors, poll, check_events, after_poll, next_round, run_round, run_rounds,
  run,
}
use rabbitpy.Io.Loop.Stream.{
  concat-append, pending, OnWire, OnWire-same, on_error-OnWire, write-OnWire,
}

module _ {F R : Type 0} (marshal : F → ℕ → List ℕ) (on_read : List ℕ → Action R Unit)
    (total : List ℕ) where
  abbrev Wired : Loop F R → Type 0
  Wired s = OnWire marshal total s

  drain_queue-Wired : (s : Loop F R) → Wired s → Wired (drain_queue marshal s)
  unfolding drain_queue
  drain_queue-Wired s w = record {
    rest = w.rest;
    split = w.split;
    waits = λ h.
        w.waits h
        ∙ sym (
            append-nil _ ∙ concat-append s.write_buffer (map (λ p. marshal p.1 p.0) s.write_queue));
  }

  clear_trigger-Wired : (t : Turn) → Keeps Wired (clear_trigger t)
  unfolding clear_trigger
  clear_trigger-Wired t s w = subst Wired (ground arith) w

  read-Wired : (r : Recv) → Keeps Wired (read marshal on_read r)
  unfolding read
  read-Wired (received bytes) s w =
      OnWire-same marshal total s _ (ground arith) (ground arith) (ground arith) (λ k. ground arith)
        w
  read-Wired timed_out s w = subst Wired (ground arith) w
  read-Wired (failed e) s w =
      OnWire-same marshal total s _ (ground arith) (ground arith) (ground arith) (λ k. ground arith)
        w

  write_if_ready-Wired : (t : Turn) → Keeps Wired (write_if_ready t)
  unfolding write_if_ready
  write_if_ready-Wired t s w = elim (Bool-cases (t.writable && not (is_empty s.write_buffer))) [
    | inl h ↦ subst Wired (ground arith) (write-OnWire marshal total t.send s w)
    | inr h ↦ subst Wired (ground arith) w
  ]

  on_poll_errors-Wired : Keeps Wired on_poll_errors
  unfolding on_poll_errors
  on_poll_errors-Wired s w =
      on_error-OnWire marshal total "Connection reset"
        (record s { events = (Events.set s.events Events.socket_close).1 })
        (record { rest = w.rest; split = w.split; waits = w.waits })

  check_events-Wired : Keeps Wired check_events
  unfolding check_events
  check_events-Wired s w =
      OnWire-same marshal total s _ (ground arith) (ground arith) (ground arith) (λ k. ground arith)
        w

  when-Wired : (b : Bool) (m : Action (Loop F R) Unit) → Keeps Wired m → Keeps Wired (when b m)
  when-Wired true m k s w = k s w
  when-Wired false m k s w = w

  on_poll_ready-Wired : (t : Turn) → Keeps Wired (on_poll_ready marshal on_read t)
  unfolding on_poll_ready
  on_poll_ready-Wired t = Keeps-bind Wired (clear_trigger t) _ (clear_trigger-Wired t) (λ _.
      Keeps-bind Wired (when t.readable (read marshal on_read t.recv)) _
        (when-Wired t.readable (read marshal on_read t.recv) (read-Wired t.recv))
        (λ _. write_if_ready-Wired t))

  poll-Wired : (t : Turn) → Keeps Wired (poll marshal on_read t)
  unfolding poll
  poll-Wired t s w =
      let drained = drain_queue-Wired s w in
      elim (Bool-cases t.has_errors) [
        | inl h ↦ rw h (on_poll_errors-Wired (drain_queue marshal s) drained)
        | inr h ↦ rw h (on_poll_ready-Wired t (drain_queue marshal s) drained)
      ]

  after_poll-Wired : (r : Outcome (Unit {0})) → Keeps Wired (after_poll r)
  unfolding after_poll
  after_poll-Wired (return a) s w = check_events-Wired s w
  after_poll-Wired (raise (environment_error true)) s w = w
  after_poll-Wired (raise (environment_error false)) s w = check_events-Wired s w
  after_poll-Wired (raise e) s w = w
  after_poll-Wired blocked s w = w
  after_poll-Wired no_fuel s w = w

  next_round-Wired :
      (r : Outcome Bool) (rest : Action (Loop F R) Unit)
      → Keeps Wired rest
      → Keeps Wired (next_round r rest)
  unfolding next_round
  next_round-Wired (return true) rest k s w = w
  next_round-Wired (return false) rest k s w = k s w
  next_round-Wired (raise e) rest k s w = w
  next_round-Wired blocked rest k s w = w
  next_round-Wired no_fuel rest k s w = w

  run_round-Wired : (t : Turn) → Keeps Wired (run_round marshal on_read t)
  unfolding run_round
  run_round-Wired t s w = after_poll-Wired (poll marshal on_read t s).0 _ (poll-Wired t s w)

  run_rounds-Wired : (turns : List Turn) → Keeps Wired (run_rounds marshal on_read turns)
  unfolding run_rounds
  run_rounds-Wired [] s w = subst Wired (ground arith) w
  run_rounds-Wired (t ∷ turns) s w = elim (Bool-cases s.running) [
    | inl h ↦ subst Wired (ground arith) (
        next_round-Wired (run_round marshal on_read t s).0 (run_rounds marshal on_read turns)
          (run_rounds-Wired turns) (run_round marshal on_read t s).1 (run_round-Wired t s w))
    | inr h ↦ subst Wired (ground arith) w
  ]

-- Whatever the poller and the sockets answer, over any number of turns, what the socket accepted is
-- a front part of what was given to the loop: the bytes sent before, the buffered bytes and the
-- marshalled frames of the queue, in that order. And if the loop has not been stopped by a socket
-- error, what was accepted and what still waits make up all of it, so no byte is lost or doubled.
pub run-OnWire :
    {F R : Type 0} (marshal : F → ℕ → List ℕ) (on_read : List ℕ → Action R Unit) (turns : List Turn)
    (s : Loop F R)
    → OnWire marshal (s.sent ++ pending marshal s) (run marshal on_read turns s).1
unfolding run
run-OnWire marshal on_read turns s =
    run_rounds-Wired marshal on_read (s.sent ++ pending marshal s) turns
      (record s { running = true })
      (record { rest = pending marshal s; split = refl; waits = λ h. refl })
