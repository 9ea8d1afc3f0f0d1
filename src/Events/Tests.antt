-- ===== src/Events/Tests.antt =====
-- Runs of rabbitpy/events.py on its own events.
use rabbitpy.Prelude.{◌≡◌, refl, true, false, none, some}
use rabbitpy.Events.{create_event_objects, set, socket_opened}

set_twice :
    ((set create_event_objects socket_opened).0 ≡ some true)
    × ((set (set create_event_objects socket_opened).1 socket_opened).0 ≡ some false)
    × ((set create_event_objects 10).0 ≡ none)
unfolding set create_event_objects
set_twice = (refl, refl, refl)
