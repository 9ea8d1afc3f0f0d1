-- ===== src/Events/Laws.antt =====
-- What setting, clearing and waiting do to every event of rabbitpy/events.py.
use mathlib.Core.Option
use rabbitpy.Prelude.{
  ℕ, ◌==◌, if◌then◌else◌, ◌≡◌, Bool, true, false, not, ◌||◌, Option, List, [], ◌∷◌, arith,
}
use rabbitpy.Events.{Events, find, assign, is_set, clear, set, wait}

find-assign :
    (i j : ℕ) (value : Bool) (l : List (ℕ × Bool))
    → find j (assign i value l) ≡ (if i == j then Option.map (λ _. value) (find j l) else find j l)
unfolding find assign
find-assign i j value [] = ground arith
find-assign i j value ((k, flag) ∷ l) = ground (arith, find-assign i j value l)

-- The value that `is_set` has at `j` after event `i` was given the flag `value`.
abbrev pub reads : Events → ℕ → Bool → ℕ → Option Bool
reads e i value j = if i == j then Option.map (λ _. value) (is_set e j) else is_set e j

-- Setting event `i` answers None if it does not exist, and otherwise whether it was clear before;
-- afterwards it is set if it exists, and every other event reads as before.
pub set_lem :
    (e : Events) (i j : ℕ)
    → ((set e i).0 ≡ Option.map not (is_set e i)) × (is_set (set e i).1 j ≡ reads e i true j)
unfolding set is_set
set_lem e i j = ground (arith, find-assign i j true e.events)

-- Clearing event `i` answers None if it does not exist, and otherwise whether it was set before;
-- afterwards it is clear if it exists, and every other event reads as before.
pub clear_lem :
    (e : Events) (i j : ℕ)
    → ((clear e i).0 ≡ is_set e i) × (is_set (clear e i).1 j ≡ reads e i false j)
unfolding clear is_set
clear_lem e i j = ground (arith, find-assign i j false e.events)

-- A wait answers None exactly for an event that does not exist, true exactly when the event is set
-- by the end, and leaves every other event as it was.
pub wait_lem :
    (fired : Bool) (e : Events) (i j : ℕ)
    → ((wait fired e i).0 ≡ is_set (wait fired e i).1 i)
      × (is_set (wait fired e i).1 i ≡ Option.map (λ flag. flag || fired) (is_set e i))
      × (is_set (wait fired e i).1 j
          ≡ (if i == j then Option.map (λ flag. flag || fired) (is_set e j) else is_set e j))
unfolding wait is_set
wait_lem fired e i j = ground (arith, find-assign i j true e.events, find-assign i i true e.events)
