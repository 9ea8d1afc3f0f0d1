-- ===== src/Io/Thread/Stops.antt =====
-- How the IO thread is stopped (rabbitpy/io.py, `stop` and `_close`), and what the model of a
-- connection takes it to do.
use rabbitpy.Prelude.{
  ℕ, if◌then◌else◌, ◌≡◌, refl, ◌∙◌, ap, Bool, true, false, Option, none, some, List, [], ◌∷◌, ◌++◌,
  arith, append_assoc, append-nil, sym,
}
use rabbitpy.Action.{return}
use rabbitpy.Stateful
use rabbitpy.Events
use rabbitpy.Events.{Events, holds, is_set}
use rabbitpy.Connection.State.{Connection, io_stop}
use rabbitpy.Io.Thread.{Io, stop, set_closed_event}

-- To set an event that is set changes nothing.
set-holds : (e : Events) (id : ℕ) → holds e id ≡ true → (Events.set e id).1 ≡ e
unfolding Events.set
set-holds e id h = ground arith

abbrev with_events : {F R : Type 0} → Events → Io F R → Io F R
with_events e s = record s { loop = record s.loop { events = e } }

set_closed_event-set :
    {F R : Type 0} (fails : ℕ → Bool) (s : Io F R)
    → set_closed_event fails s
      ≡ (return tt, with_events (Events.set s.loop.events Events.socket_closed).1 s)
unfolding set_closed_event
set_closed_event-set fails s = by_flag (holds s.loop.events Events.socket_closed) refl
  where
    by_flag :
        (b : Bool)
        → holds s.loop.events Events.socket_closed ≡ b
        → set_closed_event fails s
          ≡ (return tt, with_events (Events.set s.loop.events Events.socket_closed).1 s)
    by_flag true h = rw (h, set-holds s.loop.events Events.socket_closed h) refl
    by_flag false h = rw h refl

-- The sockets that `stop` closes, in order.
abbrev pub sockets : {F R : Type 0} → Io F R → List ℕ
sockets s = elim s.socket [
  | none ↦ s.write_listener ∷ s.write_trigger ∷ []
  | some socket ↦ socket ∷ s.write_listener ∷ s.write_trigger ∷ []
]

-- Those whose `shutdown` succeeds.
abbrev pub closable : (fails : ℕ → Bool) → List ℕ → List ℕ
closable fails [] = []
closable fails (x ∷ xs) = if fails x then closable fails xs else x ∷ closable fails xs

-- The thread that was stopped.
abbrev pub stopped : {F R : Type 0} → (fails : ℕ → Bool) → Io F R → Io F R
stopped fails s = record s {
  state = some Stateful.closed_state;
  closed = s.closed ++ closable fails (sockets s);
  loop = record s.loop {
    events =
        (Events.set (Events.clear s.loop.events Events.socket_opened).1 Events.socket_closed).1;
  };
}

closable-keeps :
    (fails : ℕ → Bool) (x : ℕ) (xs l : List ℕ)
    → (if fails x then l else l ++ x ∷ []) ++ closable fails xs ≡ l ++ closable fails (x ∷ xs)
closable-keeps fails x xs l = by_failure (fails x)
  where
    by_failure :
        (b : Bool)
        → (if b then l else l ++ x ∷ []) ++ closable fails xs
          ≡ l ++ (if b then closable fails xs else x ∷ closable fails xs)
    by_failure true = refl
    by_failure false = append_assoc l (x ∷ []) (closable fails xs)

module _ (fails : ℕ → Bool) where
  abbrev keeping : ℕ → List ℕ → List ℕ
  keeping x l = if fails x then l else l ++ x ∷ []

module _ {F R : Type 0} (fails : ℕ → Bool) where
  -- What `stop` does but for the list of the closed sockets.
  stop-eq :
      (s : Io F R) (socket : Option ℕ)
      → s.socket ≡ socket
      → stop fails s ≡ (
        return tt,
        record (stopped fails s) {
          closed = keeping fails s.write_trigger (
              keeping fails s.write_listener
                (elim socket [ none ↦ s.closed | some x ↦ keeping fails x s.closed ]));
        },
      )
  unfolding stop
  stop-eq s none e = rw (e, set_closed_event-set {F = F} {R = R} fails) refl
  stop-eq s (some x) e = rw (e, set_closed_event-set {F = F} {R = R} fails) refl

keeping_two :
    (fails : ℕ → Bool) (x y : ℕ) (l : List ℕ)
    → keeping fails y (keeping fails x l) ≡ l ++ closable fails (x ∷ y ∷ [])
keeping_two fails x y l =
    sym (append-nil (keeping fails y (keeping fails x l)))
    ∙ closable-keeps fails y [] (keeping fails x l)
    ∙ closable-keeps fails x (y ∷ []) l

keeping_three :
    (fails : ℕ → Bool) (x y z : ℕ) (l : List ℕ)
    → keeping fails z (keeping fails y (keeping fails x l)) ≡ l ++ closable fails (x ∷ y ∷ z ∷ [])
keeping_three fails x y z l =
    keeping_two fails y z (keeping fails x l) ∙ closable-keeps fails x (y ∷ z ∷ []) l

module _ {F R : Type 0} (fails : ℕ → Bool) (s : Io F R) where
  closed-eq :
      (socket : Option ℕ)
      → keeping fails s.write_trigger (
          keeping fails s.write_listener
            (elim socket [ none ↦ s.closed | some x ↦ keeping fails x s.closed ]))
        ≡ s.closed
          ++ closable fails (elim socket [
            | none ↦ s.write_listener ∷ s.write_trigger ∷ []
            | some x ↦ x ∷ s.write_listener ∷ s.write_trigger ∷ []
          ])
  closed-eq none = keeping_two fails s.write_listener s.write_trigger s.closed
  closed-eq (some x) = keeping_three fails x s.write_listener s.write_trigger s.closed

  -- `stop` returns; the thread is closed, SOCKET_OPENED is cleared and SOCKET_CLOSED is set; of the
  -- socket, if there is one, and the two trigger sockets, in this order, exactly those are closed
  -- whose shutdown succeeds; nothing else has changed.
  pub stop_lem : stop fails s ≡ (return tt, stopped fails s)
  stop_lem =
      stop-eq fails s s.socket refl
      ∙ ap (λ l. (return tt, record (stopped fails s) { closed = l })) (closed-eq s.socket)

-- On the events that a connection shares with its IO thread, `stop` of the thread does what the model
-- of the connection does when it stops the thread.
pub stop-io_stop :
    {F R : Type 0} (fails : ℕ → Bool) (s : Io F R) (c : Connection)
    → s.loop.events ≡ c.events
    → ((stop fails s).0 ≡ (io_stop c).0) × ((stop fails s).1.loop.events ≡ (io_stop c).1.events)
unfolding io_stop
stop-io_stop fails s c e =
    rw (stop_lem fails s) (
      refl,
      ap (λ v. (Events.set (Events.clear v Events.socket_opened).1 Events.socket_closed).1) e,
    )
