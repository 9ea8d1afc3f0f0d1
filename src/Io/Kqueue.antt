-- ===== src/Io/Kqueue.antt =====
-- rabbitpy/io.py, _KQueuePoller. The kernel queue is known by the changes that it was handed: `changes`
-- has those of the calls of `control` that succeeded, the last one in front; those of the
-- constructor and of `_cleanup` are taken to succeed.
pub mod Registered
mod Tests
use rabbitpy.Prelude.{
  ℕ, if◌then◌else◌, Bool, true, false, not, ◌&&◌, Option, none, some, List, [], ◌∷◌, ◌++◌, is_empty,
}
use rabbitpy.Io.Poll.{Ready, nothing, cons_if}

pub data Filter : Type 0 where
  read write other : Filter

pub data Change : Type 0 where
  add delete : (ident : ℕ) → Filter → Change

-- What is read of a kevent: `flags` by the tests on KQ_EV_ERROR and KQ_EV_EOF.
pub record Event : Type 0 where
  pub ident : ℕ
  pub filter : Filter
  pub error : Bool
  pub eof : Bool
  pub number : ℕ

pub record Kqueue : Type 0 where
  pub fd : ℕ
  pub write_trigger : ℕ
  pub changes : List Change
  pub write_in_last_poll : Bool

pub new_poller : (fd write_trigger : ℕ) → Kqueue
new_poller fd write_trigger = record {
  fd = fd;
  write_trigger = write_trigger;
  changes = add write_trigger read ∷ add fd read ∷ [];
  write_in_last_poll = false;
}

-- `_changelist`: the change, if any, and the poller that is left
changelist : (write_wanted : Bool) → Kqueue → List Change × Kqueue
changelist write_wanted s =
    if write_wanted && not s.write_in_last_poll
    then (add s.fd write ∷ [], record s { write_in_last_poll = true })
    else if s.write_in_last_poll && not write_wanted
    then (delete s.fd write ∷ [], record s { write_in_last_poll = false })
    else ([], s)

is_read : Filter → Bool
is_read read = true
is_read f = false

is_write : Filter → Bool
is_write write = true
is_write f = false

-- The loop over the events; at the end of a connection it takes the number in `data`.
collect : List Event → Ready
unfolding is_read is_write
collect [] = nothing
collect (event ∷ rest) =
    let later = collect rest in
    record {
      readable = cons_if (is_read event.filter) event.ident later.readable;
      writable = cons_if (is_write event.filter) event.ident later.writable;
      failed = cons_if event.error event.ident (cons_if event.eof event.number later.failed);
    }

-- `_cleanup`, whose list of changes for the write filter is returned and not applied
cleanup : Kqueue → Kqueue
cleanup s = record s { changes = delete s.write_trigger read ∷ delete s.fd read ∷ s.changes }

after_control : List Change → Option (List Event) → Kqueue → Ready × Kqueue
unfolding collect cleanup
after_control changes none s = (nothing, s)
after_control changes (some events) s =
    let s' : Kqueue = record s { changes = changes ++ s.changes } in
    let ready = collect events in (ready, if is_empty ready.failed then s' else cleanup s')

-- `poll`, with what `control` answers, or none for its error
unfoldable pub poll : (write_wanted : Bool) → Option (List Event) → Kqueue → Ready × Kqueue
unfolding changelist after_control
poll write_wanted answer s =
    after_control (changelist write_wanted s).0 answer (changelist write_wanted s).1

-- A sequence of polls.
unfoldable pub polls : List (Bool × Option (List Event)) → Kqueue → Kqueue
unfolding poll
polls [] s = s
polls ((write_wanted, answer) ∷ rest) s = polls rest (poll write_wanted answer s).1
