-- ===== src/Events.antt =====
-- rabbitpy/events.py: the signals that the threads of a connection share. An event is known by its
-- number; a threading.Event is its flag. Laws holds the proofs.
pub mod Laws
mod Tests
use rabbitpy.Prelude.{
  ℕ, ◌==◌, if◌then◌else◌, Bool, true, false, not, ◌||◌, Option, none, some, List, [], ◌∷◌, map,
}

abbrev pub channel0_close : ℕ
channel0_close = 0x01

abbrev pub channel0_closed : ℕ
channel0_closed = 0x02

abbrev pub channel0_opened : ℕ
channel0_opened = 0x03

abbrev pub connection_blocked : ℕ
connection_blocked = 0x04

abbrev pub connection_event : ℕ
connection_event = 0x05

abbrev pub exception_raised : ℕ
exception_raised = 0x06

abbrev pub socket_close : ℕ
socket_close = 0x07

abbrev pub socket_closed : ℕ
socket_closed = 0x08

abbrev pub socket_opened : ℕ
socket_opened = 0x09

-- `self._events`: the events by number, each with its flag
pub record Events : Type 0 where
  pub events : List (ℕ × Bool)

abbrev pub event_ids : List ℕ
event_ids =
    channel0_close ∷ channel0_closed ∷ channel0_opened ∷ connection_blocked ∷ connection_event
    ∷ exception_raised ∷ socket_close ∷ socket_closed ∷ socket_opened ∷ []

unfoldable pub create_event_objects : Events
create_event_objects = record { events = map (λ event_id. (event_id, false)) event_ids }

find : ℕ → List (ℕ × Bool) → Option Bool
find event_id [] = none
find event_id ((k, flag) ∷ rest) = if k == event_id then some flag else find event_id rest

-- `self._events[event_id].set()` and `.clear()`
assign : ℕ → Bool → List (ℕ × Bool) → List (ℕ × Bool)
assign event_id value [] = []
assign event_id value ((k, flag) ∷ rest) =
    if k == event_id then (k, value) ∷ rest else (k, flag) ∷ assign event_id value rest

-- None stands for an event that does not exist.
unfoldable pub is_set : Events → ℕ → Option Bool
unfolding find
is_set e event_id = find event_id e.events

unfoldable pub clear : Events → ℕ → Option Bool × Events
unfolding is_set assign
clear e event_id = elim (is_set e event_id) [
  | none ↦ (none, e)
  | some false ↦ (some false, e)
  | some true ↦ (some true, record { events = assign event_id false e.events })
]

unfoldable pub set : Events → ℕ → Option Bool × Events
unfolding is_set assign
set e event_id = elim (is_set e event_id) [
  | none ↦ (none, e)
  | some true ↦ (some false, e)
  | some false ↦ (some true, record { events = assign event_id true e.events })
]

-- `fired` says whether another thread sets the event before the timeout.
unfoldable pub wait : (fired : Bool) → Events → ℕ → Option Bool × Events
unfolding is_set assign
wait fired e event_id = elim (is_set e event_id) [
  | none ↦ (none, e)
  | some flag ↦
      (some (flag || fired), if fired then record { events = assign event_id true e.events } else e)
]

-- `e._events.is_set(event_id)` in a test: None counts as false.
abbrev pub holds : Events → ℕ → Bool
holds e event_id = elim (is_set e event_id) [ none ↦ false | some flag ↦ flag ]
