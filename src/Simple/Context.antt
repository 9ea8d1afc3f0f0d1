-- ===== src/Simple/Context.antt =====
-- What a channel of its own leaves behind (rabbitpy/simple.py, SimpleChannel as a context manager).
use rabbitpy.Prelude.{ℕ, ◌≡◌, refl, Bool, true, false, not, String, List, arith}
use rabbitpy.Action.{Action, Outcome, return, raise, blocked, no_fuel, and_then, when}
use rabbitpy.Action.Rules.{Returned, then-Returns}
use rabbitpy.Stateful.{is_closed}
use rabbitpy.Frame.{Pamqp, Value}
use rabbitpy.Channel.{Tick}
use rabbitpy.Connection.State.{Connection}
use rabbitpy.Connection.Closing.{close}
use rabbitpy.Connection.Closing.Ends.{Closed, close-Closed}
use rabbitpy.Simple.{closing, close_channel_if, close_connection_if, leave, enter, with_channel}

module _ (pamqp : Pamqp) (rounds : ℕ) where
  close_connection_if-Closed :
      (s : Connection) → Returned Closed (close_connection_if pamqp rounds s)
  unfolding close_connection_if
  close_connection_if-Closed s = by_state (is_closed s.state) refl
    where
      by_state :
          (b : Bool) → is_closed s.state ≡ b → Returned Closed (when (not b) (close pamqp rounds) s)
      by_state true h = λ _. ground arith
      by_state false h = close-Closed pamqp rounds s

  closing-Closed : (id : ℕ) (s : Connection) → Returned Closed (closing pamqp rounds id s)
  unfolding closing
  closing-Closed id s =
      then-Returns (λ _. Unit) Closed (close_channel_if pamqp rounds id)
        (close_connection_if pamqp rounds) s (λ _. tt) (λ u _. close_connection_if-Closed u)

  module _ {A : Type 0} where
    -- What follows the closing returns only where the closing has returned.
    after-Closed :
        (o : Outcome (Unit {0})) (t : Connection) (last : Outcome A) (a : A)
        → (o ≡ return tt → Closed t)
        → (and_then o (λ _ u. (last, u)) t).0 ≡ return a
        → Closed (and_then o (λ _ u. (last, u)) t).1
    after-Closed (return _) t last a h e = h refl
    after-Closed (raise x) t last a h e = cc
    after-Closed blocked t last a h e = cc
    after-Closed no_fuel t last a h e = cc

    leave-Closed :
        (id : ℕ) (o : Outcome A) (s : Connection) (a : A)
        → (leave pamqp rounds id o s).0 ≡ return a
        → Closed (leave pamqp rounds id o s).1
    unfolding leave
    leave-Closed id (return b) s a e =
        after-Closed (closing pamqp rounds id s).0 (closing pamqp rounds id s).1 (return b) a
          (closing-Closed id s) e
    leave-Closed id (raise x) s a e =
        after-Closed (closing pamqp rounds id s).0 (closing pamqp rounds id s).1 (raise x) a
          (closing-Closed id s) e
    leave-Closed id blocked s a e = cc
    leave-Closed id no_fuel s a e = cc

    entered-Closed :
        (body : ℕ → Action Connection A) (o : Outcome ℕ) (t : Connection) (a : A)
        → let r = and_then o (λ id u. leave pamqp rounds id (body id u).0 (body id u).1) t in
          r.0 ≡ return a → Closed r.1
    entered-Closed body (return id) t a e = leave-Closed id (body id t).0 (body id t).1 a e
    entered-Closed body (raise x) t a e = cc
    entered-Closed body blocked t a e = cc
    entered-Closed body no_fuel t a e = cc

  -- A block on a channel of its own that returns has closed the connection, whatever the block did and
  -- the other threads did meanwhile.
  pub with_channel-Closed :
      (table_of : Value → List (String × Bool)) (ticks : List Tick) {A : Type 0}
      (body : ℕ → Action Connection A) (s : Connection) (a : A)
      → let r = with_channel pamqp rounds table_of ticks body s in r.0 ≡ return a → Closed r.1
  unfolding with_channel
  with_channel-Closed table_of ticks body s a e =
      let entered = enter pamqp rounds table_of ticks s in
      entered-Closed body entered.0 entered.1 a e

-- How a block ends: with a value or with an exception.
abbrev pub has_ended : {A : Type 0} → Outcome A → Bool
has_ended (return a) = true
has_ended (raise e) = true
has_ended blocked = false
has_ended no_fuel = false

module _ (pamqp : Pamqp) (rounds : ℕ) {A : Type 0} where
  pub leave-ended :
      (id : ℕ) (o : Outcome A) (s : Connection)
      → has_ended o ≡ true
      → (closing pamqp rounds id s).0 ≡ return tt
      → leave pamqp rounds id o s ≡ (o, (closing pamqp rounds id s).1)
  unfolding leave
  leave-ended id (return a) s h e = rw e refl
  leave-ended id (raise x) s h e = rw e refl
  leave-ended id blocked s h e = cc
  leave-ended id no_fuel s h e = cc

  -- A block that is entered, ends with a value or an exception, and whose channel and connection can
  -- then be closed: the whole ends as the block did, and the connection is closed.
  pub with_channel-ends :
      (table_of : Value → List (String × Bool)) (ticks : List Tick) (body : ℕ → Action Connection A)
      (s t : Connection) (id : ℕ)
      → enter pamqp rounds table_of ticks s ≡ (return id, t)
      → has_ended (body id t).0 ≡ true
      → (closing pamqp rounds id (body id t).1).0 ≡ return tt
      → let r = with_channel pamqp rounds table_of ticks body s in
        (r.0 ≡ (body id t).0) × Closed r.1
  unfolding with_channel
  with_channel-ends table_of ticks body s t id e h c =
      rw (e, leave-ended id (body id t).0 (body id t).1 h c)
        (refl, closing-Closed pamqp rounds id (body id t).1 c)
