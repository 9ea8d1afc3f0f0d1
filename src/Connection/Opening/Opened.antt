-- ===== src/Connection/Opening/Opened.antt =====
-- What a connection is when `_connect` has returned (rabbitpy/connection.py).
use rabbitpy.Prelude.{
  ℕ, ◌==◌, ◌≡◌, refl, if◌then◌else◌, Bool, true, false, not, none, some, List, [], ◌∷◌, arith,
}
use rabbitpy.Exceptions.{Exception, connection_closed}
use rabbitpy.Action.{Action, return, raise, blocked, ◌>>◌}
use rabbitpy.Action.Rules.{then-Returns}
use rabbitpy.Stateful
use rabbitpy.Stateful.{is_closed}
use rabbitpy.Frame.{Pamqp}
use rabbitpy.Connection.State.{Connection, Happening, happen, set_state, io_stop}
use rabbitpy.Connection.Closing.{close}
use rabbitpy.Connection.Opening.{
  connect, negotiate, channel0_open, wait_negotiated, stop_next, finish, start_channel0, start_io,
  wait_opened,
}

-- Channel 0 is open, its frame size is the one that channels use, and the heartbeat runs exactly if
-- an interval was asked for.
pub record Opened (s : Connection) : Type 0 where
  pub state : s.state ≡ Stateful.open_state
  pub channel0 : channel0_open s ≡ true
  pub max_frame_size :
      s.max_frame_size ≡ elim s.channel0 [ none ↦ none | some c ↦ some c.max_frame_size ]
  pub timer : s.timer ≡ some (not (s.heartbeat == 0))

abbrev Ready : Connection → Type 0
Ready s = channel0_open s ≡ true

-- One test of the second loop.
loop-Ready :
    (b : Bool) (exceptions : List Exception) (m : Action Connection Unit) (s : Connection)
    → channel0_open s ≡ b
    → ((m s).0 ≡ return tt → Ready (m s).1)
    → (if b then (return tt, s) else stop_next exceptions m s).0 ≡ return tt
    → Ready (if b then (return tt, s) else stop_next exceptions m s).1
unfolding stop_next io_stop
loop-Ready true es m s o h e = o
loop-Ready false [] m s o h e = h e
loop-Ready false (x ∷ es) m s o h e = cc

wait_negotiated-Ready :
    (schedule : List Happening) (s : Connection)
    → (wait_negotiated schedule s).0 ≡ return tt
    → Ready (wait_negotiated schedule s).1
unfolding wait_negotiated stop_next
wait_negotiated-Ready [] s e =
    loop-Ready (channel0_open s) s.exceptions (λ r. (blocked, r)) s refl (λ e. cc) e
wait_negotiated-Ready (h ∷ later) s e =
    loop-Ready (channel0_open s) s.exceptions
      (λ r. wait_negotiated later (happen h (record r { schedule = later }))) s refl
      (wait_negotiated-Ready later (happen h (record s { schedule = later }))) e

finish-Opened : (s : Connection) → Ready s → (finish s).0 ≡ return tt → Opened (finish s).1
unfolding finish set_state Stateful.set_state channel0_open
finish-Opened s o e = record { state = refl; channel0 = o; max_frame_size = refl; timer = refl }

negotiate-Opened : (s : Connection) → (negotiate s).0 ≡ return tt → Opened (negotiate s).1
unfolding negotiate
negotiate-Opened s e =
    then-Returns Ready Opened (start_channel0 >> λ s. wait_negotiated s.schedule s) finish s
      (then-Returns (λ _. Unit) Ready start_channel0 (λ s. wait_negotiated s.schedule s) s (λ _. tt)
        (λ u _. wait_negotiated-Ready u.schedule u))
      finish-Opened e

-- A connection that is closed cannot be closed again.
close-closed :
    (pamqp : Pamqp) (rounds : ℕ) (s : Connection)
    → is_closed s.state ≡ true
    → close pamqp rounds s ≡ (raise connection_closed, s)
unfolding close
close-closed pamqp rounds s c = ground arith

-- The end of `_connect`, where it returns.
last-Opened :
    (pamqp : Pamqp) (rounds : ℕ) (b : Bool) (s : Connection)
    → is_closed s.state ≡ b
    → (if b then close pamqp rounds s else negotiate s).0 ≡ return tt
    → Opened (if b then close pamqp rounds s else negotiate s).1
last-Opened pamqp rounds true s c e = cc (close-closed pamqp rounds s c)
last-Opened pamqp rounds false s c e = negotiate-Opened s e

-- When `_connect` returns, whatever the other threads did, the connection is open, channel 0 is
-- open with the frame size that channels are given, and the heartbeat runs exactly if the interval
-- that was asked for is not 0.
pub connect-Opened :
    (pamqp : Pamqp) (rounds : ℕ) (s : Connection)
    → (connect pamqp rounds s).0 ≡ return tt
    → Opened (connect pamqp rounds s).1
unfolding connect
connect-Opened pamqp rounds s e =
    then-Returns (λ _. Unit) Opened
      (set_state Stateful.opening_state >> start_io >> λ s. wait_opened s.schedule s)
      (λ s. if is_closed s.state then close pamqp rounds s else negotiate s) s (λ _. tt)
      (λ u _. last-Opened pamqp rounds (is_closed u.state) u refl) e
