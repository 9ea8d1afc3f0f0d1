-- ===== src/Io/Kqueue/Tests.antt =====
-- Polls of a kernel queue (rabbitpy/io.py, _KQueuePoller).
use rabbitpy.Prelude.{◌≡◌, refl, true, false, none, some, [], ◌∷◌}
use rabbitpy.Io.Kqueue.{Event, read, write, poll, polls, new_poller, add, delete}
use rabbitpy.Io.Kqueue.Registered.{InStep, answered, wanted_last, polls-InStep}

abbrev broken : Event
broken = record { ident = 5; filter = write; error = true; eof = true; number = 2 }

-- A poll for writing that reports an error, and one that wants nothing.
polls-InStep_example :
    InStep
      (polls (answered ((true, broken ∷ []) ∷ (false, []) ∷ [])) (new_poller 5 6))
      (wanted_last false ((true, broken ∷ []) ∷ (false, []) ∷ []))
polls-InStep_example = polls-InStep 5 6 ((true, broken ∷ []) ∷ (false, []) ∷ [])

-- The write filter is still there behind the cleaning up.
write_left :
    (poll true (some (broken ∷ [])) (new_poller 5 6)).1.changes
    ≡ delete 6 read ∷ delete 5 read ∷ add 5 write ∷ add 6 read ∷ add 5 read ∷ []
unfolding poll new_poller
write_left = refl

-- A call of `control` that fails leaves the poller sure of a filter that was never added.
out_of_step :
    ((poll true none (new_poller 5 6)).1.write_in_last_poll ≡ true)
    × ((poll true none (new_poller 5 6)).1.changes ≡ add 6 read ∷ add 5 read ∷ [])
unfolding poll new_poller
out_of_step = (refl, refl)
