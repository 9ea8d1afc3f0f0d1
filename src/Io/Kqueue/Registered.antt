-- ===== src/Io/Kqueue/Registered.antt =====
-- When the data socket's write filter stands in the kernel queue (rabbitpy/io.py, _KQueuePoller).
use rabbitpy.Prelude.{
  ℕ, if◌then◌else◌, ◌==◌, ◌≡◌, refl, Bool, true, false, Option, some, List, [], ◌∷◌, ◌++◌, arith,
  is_empty,
}
use rabbitpy.Io.Kqueue.{
  Kqueue, Event, Change, write, add, delete, new_poller, changelist, cleanup, collect, poll, polls,
}

-- Whether these changes, the last one in front, leave the socket's write filter in the queue.
abbrev pub writes : (fd : ℕ) → List Change → Bool
writes fd [] = false
writes fd (add ident write ∷ rest) = if ident == fd then true else writes fd rest
writes fd (delete ident write ∷ rest) = if ident == fd then false else writes fd rest
writes fd (c ∷ rest) = writes fd rest

-- What the last poll wanted.
abbrev pub wanted_last : Bool → List (Bool × List Event) → Bool
wanted_last before [] = before
wanted_last before ((wanted, events) ∷ rest) = wanted_last wanted rest

abbrev pub answered : List (Bool × List Event) → List (Bool × Option (List Event))
answered [] = []
answered ((wanted, events) ∷ rest) = (wanted, some events) ∷ answered rest

pub record InStep (s : Kqueue) (wanted : Bool) : Type 0 where
  pub remembered : s.write_in_last_poll ≡ wanted
  pub registered : writes s.fd s.changes ≡ wanted

cleanup_if-InStep :
    (b wanted : Bool) (s : Kqueue) → InStep s wanted → InStep (if b then s else cleanup s) wanted
unfolding cleanup
cleanup_if-InStep true wanted s h = h
cleanup_if-InStep false wanted s h = record { remembered = h.remembered; registered = h.registered }

changelist-InStep :
    (before wanted : Bool) (s : Kqueue)
    → InStep s before
    → let (changes, s') = changelist wanted s in
      InStep (record s' { changes = changes ++ s'.changes }) wanted
unfolding changelist
changelist-InStep true true s h = record {
  remembered = ground (arith, h.remembered);
  registered = ground (arith, h.remembered, h.registered);
}
changelist-InStep true false s h = record {
  remembered = ground (arith, h.remembered);
  registered = ground (arith, h.remembered, h.registered);
}
changelist-InStep false true s h = record {
  remembered = ground (arith, h.remembered);
  registered = ground (arith, h.remembered, h.registered);
}
changelist-InStep false false s h = record {
  remembered = ground (arith, h.remembered);
  registered = ground (arith, h.remembered, h.registered);
}

poll-InStep :
    (before wanted : Bool) (events : List Event) (s : Kqueue)
    → InStep s before
    → InStep (poll wanted (some events) s).1 wanted
unfolding poll
poll-InStep before wanted events s h =
    let r = changelist wanted s in
    cleanup_if-InStep (is_empty (collect events).failed) wanted
      (record r.1 { changes = r.0 ++ r.1.changes }) (changelist-InStep before wanted s h)

from_poller :
    (before : Bool) (steps : List (Bool × List Event)) (s : Kqueue)
    → InStep s before
    → InStep (polls (answered steps) s) (wanted_last before steps)
unfolding polls
from_poller before [] s h = h
from_poller before ((wanted, events) ∷ rest) s h =
    from_poller wanted rest (poll wanted (some events) s).1 (poll-InStep before wanted events s h)

-- After any sequence of polls that the kernel queue answered, also with errors, the changes that were
-- handed over leave the data socket registered for writing exactly if the last poll wanted a write,
-- and the poller remembers this.
pub polls-InStep :
    (fd write_trigger : ℕ) (steps : List (Bool × List Event))
    → InStep (polls (answered steps) (new_poller fd write_trigger)) (wanted_last false steps)
unfolding new_poller
polls-InStep fd write_trigger steps =
    from_poller false steps (new_poller fd write_trigger)
      (record { remembered = refl; registered = refl })
