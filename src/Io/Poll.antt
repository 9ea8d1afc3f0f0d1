-- ===== src/Io/Poll.antt =====
-- rabbitpy/io.py, _PollPoller: what the data socket is registered for at the poll object, and what
-- `poll` makes of the answer; and what all pollers return. The numbers of the events are the class's
-- constants.
pub mod Registered
use rabbitpy.Prelude.{
  ℕ, ◌/◌, ◌%◌, ◌==◌, if◌then◌else◌, Bool, true, false, not, Option, none, some, List, [], ◌∷◌,
}

abbrev pub read_events : ℕ
read_events = 9

abbrev pub write_events : ℕ
write_events = 13

-- `mask` is what the data socket is registered for.
pub record Poller : Type 0 where
  pub mask : ℕ
  pub write_in_last_poll : Bool

-- `__init__`
abbrev pub new_poller : Poller
new_poller = record { mask = read_events; write_in_last_poll = false }

unfoldable pub update_poll : (write_wanted : Bool) → Poller → Poller
update_poll write_wanted s = elim s.write_in_last_poll [
  | true ↦ elim write_wanted [
    | true ↦ s
    | false ↦ record { mask = read_events; write_in_last_poll = false }
  ]
  | false ↦ record { mask = write_events; write_in_last_poll = true }
]

-- The updates of a sequence of polls.
unfoldable pub update_polls : List Bool → Poller → Poller
unfolding update_poll
update_polls [] s = s
update_polls (write_wanted ∷ rest) s = update_polls rest (update_poll write_wanted s)

-- The file descriptors to read from, to write to, and with an error.
pub record Ready : Type 0 where
  pub readable : List ℕ
  pub writable : List ℕ
  pub failed : List ℕ

abbrev pub nothing : Ready
nothing = record { readable = []; writable = []; failed = [] }

-- `event & flag`, for a flag that is a power of two
abbrev has_flag : (flag event : ℕ) → Bool
has_flag flag event = event / flag % 2 == 1

abbrev pub cons_if : Bool → ℕ → List ℕ → List ℕ
cons_if true fileno l = fileno ∷ l
cons_if false fileno l = l

-- The lists are built in the order of the events.
collect : List (ℕ × ℕ) → Ready
collect [] = nothing
collect ((fileno, event) ∷ rest) =
    let later = collect rest in
    record {
      readable = cons_if (has_flag 1 event) fileno later.readable;
      writable = cons_if (has_flag 4 event) fileno later.writable;
      failed = cons_if (has_flag 8 event) fileno later.failed;
    }

-- `poll`, with what the poll object answers, or none for its error
unfoldable pub poll : (write_wanted : Bool) → Option (List (ℕ × ℕ)) → Poller → Ready × Poller
unfolding collect update_poll
poll write_wanted answer s = (
  elim answer [ none ↦ nothing | some poll_events ↦ collect poll_events ],
  update_poll write_wanted s,
)
