-- ===== src/Stateful.antt =====
-- rabbitpy/base.py, StatefulObject: the run-time state that connections, channels and the IO thread
-- keep. The dictionary STATES is one object, and rabbitpy/channel.py adds the key 0x04 to it, so
-- that every class accepts the state 'Remotely Closed' once the package is imported.
use rabbitpy.Prelude.{ℕ, String, Bool, Option, none, some, ◌==◌, if◌then◌else◌}
use rabbitpy.Exceptions.{value_error}
use rabbitpy.Action.{Action, return, raise}

abbrev pub closed_state : ℕ
closed_state = 0x00

abbrev pub closing_state : ℕ
closing_state = 0x01

abbrev pub open_state : ℕ
open_state = 0x02

abbrev pub opening_state : ℕ
opening_state = 0x03

abbrev pub remote_closed_state : ℕ
remote_closed_state = 0x04

-- `STATES.get(value)`
abbrev pub states : ℕ → Option String
states value =
    if value == 0x00
    then some "Closed"
    else if value == 0x01
    then some "Closing"
    else if value == 0x02
    then some "Open"
    else if value == 0x03
    then some "Opening"
    else if value == 0x04
    then some "Remotely Closed"
    else none

-- `_set_state`, over the attribute `_state`
unfoldable pub set_state : ℕ → Action ℕ Unit
set_state value state = elim (states value) [
  | none ↦ (raise (value_error "Invalid state value"), state)
  | some _ ↦ (return tt, value)
]

abbrev pub is_closed : ℕ → Bool
is_closed state = state == closed_state

abbrev pub is_closing : ℕ → Bool
is_closing state = state == closing_state

abbrev pub is_open : ℕ → Bool
is_open state = state == open_state

abbrev pub is_opening : ℕ → Bool
is_opening state = state == opening_state
