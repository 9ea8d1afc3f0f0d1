-- ===== src/Io/Poll/Registered.antt =====
-- When the data socket is polled for writing (rabbitpy/io.py, _PollPoller).
use rabbitpy.Prelude.{ℕ, ◌≡◌, refl, Bool, true, false, not, ◌||◌, List, [], ◌∷◌}
use rabbitpy.Io.Poll.{read_events, write_events, new_poller, update_polls}

-- The registration for a socket that is polled for writing, or is not.
abbrev pub mask_of : Bool → ℕ
mask_of true = write_events
mask_of false = read_events

-- Whether the last of these polls was for writing: each was if a write was wanted, or if the one
-- before it was not.
abbrev pub polled_write : Bool → List Bool → Bool
polled_write before [] = before
polled_write before (wanted ∷ rest) = polled_write (wanted || not before) rest

from_poller :
    (before : Bool) (wanted : List Bool)
    → update_polls wanted (record { mask = mask_of before; write_in_last_poll = before }) ≡ record {
      mask = mask_of (polled_write before wanted);
      write_in_last_poll = polled_write before wanted;
    }
unfolding update_polls
from_poller before [] = refl
from_poller true (true ∷ rest) = from_poller true rest
from_poller true (false ∷ rest) = from_poller false rest
from_poller false (true ∷ rest) = from_poller true rest
from_poller false (false ∷ rest) = from_poller true rest

-- After any sequence of polls, the data socket is registered for writing exactly if the last of them
-- was asked for a write or the one before it was not for writing, where a new poller counts as a poll
-- that was not. So a wanted write is never missed, and while none is wanted the registration changes
-- at every poll.
pub update_polls_lem :
    (wanted : List Bool)
    → update_polls wanted new_poller ≡ record {
      mask = mask_of (polled_write false wanted);
      write_in_last_poll = polled_write false wanted;
    }
update_polls_lem = from_poller false
