-- ===== src/Io/Loop.antt =====
-- rabbitpy/io.py, _IOLoop and the callbacks of IO that it calls: one turn of the loop moves the
-- queued frames to the write buffer, asks the poller, and reads and writes.
--
-- pamqp's `frame.marshal`, IO.on_read with its state `R`, and the answers of the poller and of the
-- sockets are parameters; the answers of one turn are a `Turn`. `sent` is what the socket accepted.
mod Stream
pub mod Wire
mod Tests
use rabbitpy.Prelude.{
  ℕ, ◌+◌, ◌-◌, ◌==◌, ltb, if◌then◌else◌, Bool, true, false, not, ◌&&◌, String, Option, none, some,
  List, [], ◌∷◌, ◌++◌, map, take, drop, length, is_empty,
}
use rabbitpy.Exceptions.{
  Exception, connection_reset, connection_exception, key_error, index_error, environment_error,
}
use rabbitpy.Action.{Action, Outcome, return, raise, blocked, no_fuel, pure, when, ◌>>=◌, ◌>>◌}
use rabbitpy.Stateful.{is_open}
use rabbitpy.Events
use rabbitpy.Events.{Events}

pub data Recv : Type 0 where
  received : List ℕ → Recv
  timed_out : Recv
  failed : String → Recv

-- `fd.send`: how many bytes it took, or an exception; `error.errno` is a number.
pub data Send : Type 0 where
  accepted : ℕ → Send
  timed_out : Send
  failed : (errno : ℕ) → Send

-- What the poller and the sockets answer in one turn. `trigger` is the answer of the read from the
-- trigger socket: none, or an EnvironmentError with the test on EINTR.
pub record Turn : Type 0 where
  pub has_errors : Bool
  pub trigger_readable : Bool
  pub trigger : Option Bool
  pub readable : Bool
  pub recv : Recv
  pub writable : Bool
  pub send : List ℕ → Send

pub record Loop (F R : Type 0) : Type 0 where
  pub running : Bool
  pub write_buffer : List (List ℕ)
  pub write_queue : List (ℕ × F)
  pub events : Events
  pub exceptions : List Exception
  pub bytes_written : ℕ
  pub sent : List ℕ
  pub channel0 : Option ℕ
  pub reader : R

module _ {F R : Type 0} where
  set_event : ℕ → Loop F R → Loop F R
  set_event event_id s = record s { events = (Events.set s.events event_id).1 }

  put_exception : Exception → Loop F R → Loop F R
  put_exception e s = record s { exceptions = s.exceptions ++ e ∷ [] }

  -- `self._channels[0][0].open` picks the exception; a missing channel 0 is a KeyError.
  pub on_error : String → Action (Loop F R) Unit
  unfolding set_event put_exception
  on_error exception s =
      if Events.holds s.events Events.socket_closed then (return tt, s) else elim s.channel0 [
        | none ↦ (raise (key_error "0"), s)
        | some state ↦ (
          return tt,
          set_event Events.exception_raised (
              put_exception
                (if is_open state then connection_reset else connection_exception exception) s),
        )
      ]

  pub on_write : ℕ → Action (Loop F R) Unit
  on_write bytes_written s =
      (return tt, record s { bytes_written = s.bytes_written + bytes_written })

  abbrev stop_running : Loop F R → Loop F R
  stop_running s = record s { running = false }

  appendleft : List ℕ → Loop F R → Loop F R
  appendleft frame_data s = record s { write_buffer = frame_data ∷ s.write_buffer }

  -- The branches of `_write` after `popleft`, by what `fd.send` did.
  after_send : List ℕ → Send → Action (Loop F R) Unit
  unfolding on_error on_write appendleft
  after_send frame_data timed_out s = (return tt, appendleft frame_data s)
  after_send frame_data (failed errno) s =
      if errno == 35 then (return tt, appendleft frame_data s) else on_error "send" (stop_running s)
  after_send frame_data (accepted bytes_sent) s =
      let s' = (on_write bytes_sent (record s { sent = s.sent ++ take bytes_sent frame_data })).1 in
      (
        return tt,
        if ltb bytes_sent (length frame_data)
            then appendleft (drop bytes_sent frame_data) s'
            else s',
      )

  pub write : (List ℕ → Send) → Action (Loop F R) Unit
  unfolding after_send
  write send s = if not s.running then (return tt, s) else elim s.write_buffer [
    | [] ↦ (raise index_error, s)
    | frame_data ∷ rest ↦ after_send frame_data (send frame_data) (record s { write_buffer = rest })
  ]

  -- The loop that moves the write queue to the write buffer.
  pub drain_queue : (F → ℕ → List ℕ) → Loop F R → Loop F R
  drain_queue marshal s = record s {
    write_buffer = s.write_buffer ++ map (λ p. marshal p.1 p.0) s.write_queue;
    write_queue = [];
  }

  -- `self._data.write_trigger.recv(1024)`
  pub clear_trigger : Turn → Action (Loop F R) Unit
  clear_trigger t s =
      if t.trigger_readable
      then elim t.trigger [
        | none ↦ (return tt, s)
        | some interrupted ↦ (raise (environment_error interrupted), s)
      ]
      else (return tt, s)

  -- The checks at the end of a round: whether the loop breaks.
  pub check_events : Action (Loop F R) Bool
  unfolding put_exception
  check_events s =
      if Events.holds s.events Events.socket_closed
      then (return true, s)
      else if Events.holds s.events Events.socket_close
      then (return true, put_exception connection_reset s)
      else (return false, s)

  -- `except EnvironmentError`: an interrupted call goes on at once, any other falls to the checks.
  pub after_poll : Outcome (Unit {0}) → Action (Loop F R) Bool
  unfolding check_events
  after_poll (return _) s = check_events s
  after_poll (raise (environment_error true)) s = (return false, s)
  after_poll (raise (environment_error false)) s = check_events s
  after_poll (raise e) s = (raise e, s)
  after_poll blocked s = (blocked, s)
  after_poll no_fuel s = (no_fuel, s)

  -- True is the `break`, and `rest` the loop from the next round on.
  pub next_round : Outcome Bool → (rest : Action (Loop F R) Unit) → Action (Loop F R) Unit
  next_round (return true) rest s = (return tt, s)
  next_round (return false) rest s = rest s
  next_round (raise e) rest s = (raise e, s)
  next_round blocked rest s = (blocked, s)
  next_round no_fuel rest s = (no_fuel, s)

  pub write_if_ready : Turn → Action (Loop F R) Unit
  unfolding write
  write_if_ready t s =
      if t.writable && not (is_empty s.write_buffer) then write t.send s else (return tt, s)

  pub on_poll_errors : Action (Loop F R) Unit
  unfolding set_event on_error
  on_poll_errors s = on_error "Connection reset" (set_event Events.socket_close s)

module _ {F R : Type 0} (marshal : F → ℕ → List ℕ) (on_read : List ℕ → Action R Unit) where
  after_recv : Recv → Action (Loop F R) Unit
  unfolding on_error
  after_recv (received bytes) s =
      ((on_read bytes s.reader).0, record s { reader = (on_read bytes s.reader).1 })
  after_recv timed_out s = (return tt, s)
  after_recv (failed exception) s = on_error exception (stop_running s)

  pub read : Recv → Action (Loop F R) Unit
  unfolding after_recv
  read recv s = if not s.running then (return tt, s) else after_recv recv s

  -- The rest of `_poll` when the poller reported no error.
  pub on_poll_ready : Turn → Action (Loop F R) Unit
  unfolding clear_trigger read write_if_ready
  on_poll_ready t = do clear_trigger t; when t.readable (read t.recv); write_if_ready t

  pub poll : Turn → Action (Loop F R) Unit
  unfolding drain_queue on_poll_ready on_poll_errors
  poll t s =
      if t.has_errors
      then on_poll_errors (drain_queue marshal s)
      else on_poll_ready t (drain_queue marshal s)

  pub run_round : Turn → Action (Loop F R) Bool
  unfolding poll after_poll
  run_round t s = after_poll (poll t s).0 (poll t s).1

  -- while self._data.running
  pub run_rounds : List Turn → Action (Loop F R) Unit
  unfolding next_round
  run_rounds [] s = elim s.running [ false ↦ (return tt, s) | true ↦ (blocked, s) ]
  run_rounds (t ∷ turns) s = elim s.running [
    | false ↦ (return tt, s)
    | true ↦ next_round (run_round t s).0 (run_rounds turns) (run_round t s).1
  ]

  pub run : List Turn → Action (Loop F R) Unit
  unfolding run_rounds run_round
  run turns s = run_rounds turns (record s { running = true })
