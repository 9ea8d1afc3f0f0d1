-- ===== src/Connection/Closing/Ends.antt =====
-- What a connection is when `close` has returned (rabbitpy/connection.py).
use rabbitpy.Prelude.{ℕ, ◌≡◌, refl, false, not, ◌&&◌, List, [], ◌∷◌, arith}
use rabbitpy.Exceptions.{connection_closed}
use rabbitpy.Action.{return, raise, blocked, ◌>>◌}
use rabbitpy.Action.Rules.{Returned, if-Returned, then-Returns}
use rabbitpy.Stateful
use rabbitpy.Stateful.{is_closed, is_open, is_opening}
use rabbitpy.Events
use rabbitpy.Events.{holds}
use rabbitpy.Frame.{Pamqp}
use rabbitpy.Connection.State.{Connection, Happening, happen, set_state}
use rabbitpy.Connection.Closing.{
  close, shutdown_connection, close_all_channels, stop_io, stop_heartbeat, join_io, break_loop,
  mark_closing,
}

abbrev Joined : Connection → Type 0
Joined s = s.io_alive ≡ false

abbrev pub Closed : Connection → Type 0
Closed s = s.state ≡ Stateful.closed_state

-- The socket is not closed.
abbrev Unclosed : Connection → Type 0
Unclosed s = holds s.events Events.socket_closed ≡ false

module _ (pamqp : Pamqp) (rounds : ℕ) where
  join_io-Joined :
      (schedule : List Happening) (s : Connection)
      → Returned Joined (join_io pamqp rounds schedule s)
  unfolding join_io
  join_io-Joined [] s =
      if-Returned Joined s.io_alive (blocked, s) (return tt, s) (λ _ e. cc) (λ o _. o)
  join_io-Joined (h ∷ later) s =
      let next : Connection = happen h (record s { schedule = later }) in
      if-Returned Joined s.io_alive (join_io pamqp rounds later next) (return tt, s)
        (λ _. join_io-Joined later next) (λ o _. o)

  stop_io-Joined : (s : Connection) → Returned Joined (stop_io pamqp rounds s)
  unfolding stop_io
  stop_io-Joined s e =
      then-Returns (λ _. Unit) Joined (break_loop pamqp rounds)
        (λ s. join_io pamqp rounds s.schedule s) s (λ _. tt) (λ u _. join_io-Joined u.schedule u) e

  -- `_shutdown_connection`, where the socket is not closed when it begins.
  shutdown-Joined :
      (s : Connection) → Unclosed s → Returned Joined (shutdown_connection pamqp rounds s)
  unfolding shutdown_connection stop_heartbeat
  shutdown-Joined s n = rw n (
      then-Returns (λ _. Unit) Joined (close_all_channels pamqp rounds) (stop_io pamqp rounds)
        (stop_heartbeat pamqp rounds s).1 (λ _. tt) (λ u _. stop_io-Joined u))

  pub close-Closed : (s : Connection) → Returned Closed (close pamqp rounds s)
  unfolding close set_state Stateful.set_state
  close-Closed s =
      if-Returned Closed (not (is_open s.state) && not (is_opening s.state))
        (raise connection_closed, s)
        ((mark_closing pamqp rounds
            >> shutdown_connection pamqp rounds
            >> set_state Stateful.closed_state)
          s)
        (λ _ e. cc)
        (λ _.
          then-Returns (λ _. Unit) Closed
            (mark_closing pamqp rounds >> shutdown_connection pamqp rounds)
            (set_state Stateful.closed_state) s (λ _. tt) (λ u _ e. refl))

  close-again :
      (s : Connection)
      → s.state ≡ Stateful.closed_state
      → close pamqp rounds s ≡ (raise connection_closed, s)
  unfolding close
  close-again s c = ground arith

  marks-Unclosed : (s : Connection) → Unclosed s → Unclosed (mark_closing pamqp rounds s).1
  unfolding mark_closing set_state Stateful.set_state
  marks-Unclosed s n = rw n n

  close-Joined : (s : Connection) → Unclosed s → Returned Joined (close pamqp rounds s)
  unfolding close set_state Stateful.set_state
  close-Joined s n =
      if-Returned Joined (not (is_open s.state) && not (is_opening s.state))
        (raise connection_closed, s)
        ((mark_closing pamqp rounds
            >> shutdown_connection pamqp rounds
            >> set_state Stateful.closed_state)
          s)
        (λ _ e. cc)
        (λ _.
          then-Returns Joined Joined (mark_closing pamqp rounds >> shutdown_connection pamqp rounds)
            (set_state Stateful.closed_state) s
            (then-Returns Unclosed Joined (mark_closing pamqp rounds)
              (shutdown_connection pamqp rounds) s (λ _. marks-Unclosed s n) shutdown-Joined)
            (λ u j e. j))

-- When `close` has returned, whatever the other threads did meanwhile, the connection is closed, the
-- IO thread has ended if the socket was not closed before, and a second `close` raises a
-- ConnectionClosed and changes nothing.
pub close_lem :
    (pamqp : Pamqp) (rounds : ℕ) (s : Connection)
    → (close pamqp rounds s).0 ≡ return tt
    → let r = (close pamqp rounds s).1 in
      (r.state ≡ Stateful.closed_state)
      × (holds s.events Events.socket_closed ≡ false → r.io_alive ≡ false)
      × (close pamqp rounds r ≡ (raise connection_closed, r))
close_lem pamqp rounds s e =
    let c = close-Closed pamqp rounds s e in
    (c, (λ n. close-Joined pamqp rounds s n e), close-again pamqp rounds _ c)
