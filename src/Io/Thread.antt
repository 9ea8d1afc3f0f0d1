-- ===== src/Io/Thread.antt =====
-- rabbitpy/io.py, the life of the IO thread: `_connect` and what it calls, `run`, `stop` and `_close`.
-- Sockets are known by numbers; what the operating system answers, and the module ssl, are parameters.
-- `closed` has the sockets on which `close` was called. `_close` asks for an attribute
-- `_server_socket`, which nothing sets.
pub mod Connects
pub mod Stops
mod Tests
use rabbitpy.Prelude.{
  ℕ, if◌then◌else◌, Bool, true, false, not, ◌&&◌, String, Option, none, some, List, [], ◌∷◌, ◌++◌,
  is_empty,
}
use rabbitpy.Exceptions.{Exception, value_error, connection_exception}
use rabbitpy.Action.{
  Action, Outcome, return, raise, blocked, no_fuel, pure, modify, when, zoom, ◌>>=◌, ◌>>◌,
}
use rabbitpy.Stateful
use rabbitpy.Events
use rabbitpy.Events.{Events, holds}
use rabbitpy.Frame.{Value}
use rabbitpy.Queue.{number, word}
use rabbitpy.Connection.Url.{Args}
use rabbitpy.Io.Loop
use rabbitpy.Io.Loop.{Loop, Turn}

-- What a call on a socket gives: a socket.error, another exception, or a socket.
pub data Tried : Type 0 where
  socket_error : Tried
  raised : Exception → Tried
  got : (socket : ℕ) → Tried

-- One of the addresses of the host: what `socket.socket` gives, `wrap_socket` with its arguments, and
-- whether `connect` succeeds.
pub record Address : Type 0 where
  pub socket : Tried
  pub wrap : List (String × Value) → ℕ → Tried
  pub connects : ℕ → Bool

-- `loop` holds what the thread shares with its loop: the events, the exceptions, the write queue and
-- the counters. `state` is None before the thread runs.
pub record Io (F R : Type 0) : Type 0 where
  pub args : Args
  pub loop : Loop F R
  pub state : Option ℕ
  pub socket : Option ℕ
  pub write_listener : ℕ
  pub write_trigger : ℕ
  pub remote_name : Option String
  pub closed : List ℕ

-- `if self._args[key]: kwargs[argv] = self._args[key]`
argument : String → Option Value → List (String × Value) → List (String × Value)
argument argv none kwargs = kwargs
argument argv (some value) kwargs = kwargs ++ (argv, value) ∷ []

pub ssl_kwargs : Args → List (String × Value)
unfolding argument number word
ssl_kwargs args = argument "ca_certs" (word args.cacertfile) (
    argument "ssl_version" (number args.ssl_version) (
      argument "cert_reqs" (number args.verify)
        (argument "certfile" (word args.certfile) (argument "keyfile" (word args.keyfile) []))))

wrap_if : Args → Address → Tried → Tried
unfolding ssl_kwargs
wrap_if args a (got socket) = if args.ssl then a.wrap (ssl_kwargs args) socket else got socket
wrap_if args a t = t

-- `_create_socket`
create_socket : Args → Address → Tried
unfolding wrap_if
create_socket args a = wrap_if args a a.socket

-- `_connect_socket`
connect_socket : Address → Tried → Tried
connect_socket a (got socket) = if a.connects socket then got socket else socket_error
connect_socket a t = t

pub attempt : Args → Address → Tried
unfolding create_socket connect_socket
attempt args a = connect_socket a (create_socket args a)

-- The loop over the addresses: the socket that is left behind it.
find_socket : Args → List Address → Outcome (Option ℕ)
unfolding attempt
find_socket args [] = return none
find_socket args (a ∷ rest) = elim (attempt args a) [
  | got socket ↦ return (some socket)
  | raised e ↦ raise e
  | socket_error ↦ find_socket args rest
]

-- `_get_addr_info`: `resolve` is getaddrinfo, for every family or for IPv4 alone, and none its error.
pub get_addr_info :
    (has_ipv6 : Bool) → (resolve : (any_family : Bool) → Option (List Address)) → List Address
get_addr_info has_ipv6 resolve = elim (resolve has_ipv6) [ none ↦ [] | some addresses ↦ addresses ]

is_closed : Option ℕ → Bool
is_closed none = false
is_closed (some state) = Stateful.is_closed state

module _ {F R : Type 0} where
  set_state : ℕ → Action (Io F R) Unit
  set_state value s = elim (Stateful.states value) [
    | none ↦ (raise (value_error "Invalid state value"), s)
    | some _ ↦ (return tt, record s { state = some value })
  ]

  set_event : ℕ → Action (Io F R) Unit
  set_event event_id =
      modify
        λ s. record s { loop = record s.loop { events = (Events.set s.loop.events event_id).1 } }

  clear_event : ℕ → Action (Io F R) Unit
  clear_event event_id =
      modify
        λ s. record s { loop = record s.loop { events = (Events.clear s.loop.events event_id).1 } }

  put_exception : Exception → Action (Io F R) Unit
  put_exception e =
      modify λ s. record s { loop = record s.loop { exceptions = s.loop.exceptions ++ e ∷ [] } }

  after_find : Outcome (Option ℕ) → Action (Io F R) Unit
  unfolding set_state set_event put_exception
  after_find (return none) =
      put_exception (connection_exception "Could not connect") >> set_event Events.exception_raised
  after_find (return (some socket)) =
      modify (λ s. record s { socket = some socket })
      >> set_event Events.socket_opened
      >> set_state Stateful.open_state
  after_find (raise e) = λ s. (raise e, s)
  after_find blocked = λ s. (blocked, s)
  after_find no_fuel = λ s. (no_fuel, s)

  -- `_connect`, with the addresses of `_get_addr_info`
  unfoldable pub connect : List Address → Action (Io F R) Unit
  unfolding set_state find_socket after_find
  connect addresses =
      set_state Stateful.opening_state >> λ s. after_find (find_socket s.args addresses) s

  module _ (shutdown_fails : ℕ → Bool) where
    -- `_close_socket`: an error of `shutdown` skips `close`.
    close_socket : ℕ → Action (Io F R) Unit
    close_socket socket = modify λ s. record s {
      closed = if shutdown_fails socket then s.closed else s.closed ++ socket ∷ [];
    }

    close_if : Option ℕ → Action (Io F R) Unit
    unfolding close_socket
    close_if none = pure tt
    close_if (some socket) = close_socket socket

    set_closed_event : Action (Io F R) Unit
    unfolding set_event
    set_closed_event s =
        when (not (holds s.loop.events Events.socket_closed)) (set_event Events.socket_closed) s

    set_closed : Action (Io F R) Unit
    unfolding set_state is_closed
    set_closed s = when (not (is_closed s.state)) (set_state Stateful.closed_state) s

    -- `stop`, which is `_close`
    unfoldable pub stop : Action (Io F R) Unit
    unfolding clear_event set_state close_if close_socket set_closed_event set_closed
    stop =
        clear_event Events.socket_opened
        >> set_state Stateful.closing_state
        >> (λ s. close_if s.socket s)
        >> (λ s. close_socket s.write_listener s)
        >> (λ s. close_socket s.write_trigger s)
        >> set_closed_event
        >> set_closed

  -- `_remote_name`, from getsockname and getpeername, which may raise
  name_remote : Outcome String → Action (Io F R) Unit
  name_remote (return name) = modify (λ s. record s { remote_name = some name })
  name_remote (raise e) = λ s. (raise e, s)
  name_remote blocked = λ s. (blocked, s)
  name_remote no_fuel = λ s. (no_fuel, s)

  -- An exception in the queue that was not announced.
  announce : Action (Io F R) Unit
  unfolding set_event
  announce s =
      when (not (is_empty s.loop.exceptions) && not (holds s.loop.events Events.exception_raised))
        (set_event Events.exception_raised) s

  -- The part of `run` that needs a socket; the loop is made with an empty write buffer.
  serve :
      (marshal : F → ℕ → List ℕ) (on_read : List ℕ → Action R Unit)
      → Outcome String
      → List Turn
      → Action (Io F R) Unit
  unfolding name_remote announce
  serve marshal on_read names turns =
      name_remote names
      >> modify (λ s. record s { loop = record s.loop { running = false; write_buffer = [] } })
      >> zoom (λ s. s.loop) (λ l s. record s { loop = l }) (Loop.run marshal on_read turns)
      >> announce

  unfoldable pub run :
      (marshal : F → ℕ → List ℕ) (on_read : List ℕ → Action R Unit)
      → List Address
      → Outcome String
      → List Turn
      → Action (Io F R) Unit
  unfolding connect serve
  run marshal on_read addresses names turns = connect addresses >> λ s. elim s.socket [
    | none ↦ (return tt, s)
    | some _ ↦ serve marshal on_read names turns s
  ]
