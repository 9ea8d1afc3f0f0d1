-- ===== src/Io/Thread/Connects.antt =====
-- How the IO thread connects (rabbitpy/io.py, `_connect` and `run`).
use rabbitpy.Prelude.{ℕ, ◌≡◌, refl, String, none, some, List, [], ◌∷◌, ◌++◌, All, arith}
use rabbitpy.Exceptions.{connection_exception}
use rabbitpy.Action.{Action, Outcome, return}
use rabbitpy.Stateful
use rabbitpy.Events
use rabbitpy.Connection.Url.{Args}
use rabbitpy.Io.Loop.{Turn}
use rabbitpy.Io.Thread.{Io, Address, socket_error, got, attempt, find_socket, connect, run}

-- An address to which no socket can be connected.
abbrev pub Fails : Args → Address → Type 0
Fails args a = attempt args a ≡ socket_error

find_socket-first :
    (args : Args) (pre post : List Address) (a : Address) (socket : ℕ)
    → All (Fails args) pre
    → attempt args a ≡ got socket
    → find_socket args (pre ++ a ∷ post) ≡ return (some socket)
unfolding find_socket
find_socket-first args [] post a socket f h = ground (arith, h)
find_socket-first args (b ∷ pre) post a socket f h =
    ground (arith, f.0, find_socket-first args pre post a socket f.1 h)

find_socket-none :
    (args : Args) (addresses : List Address)
    → All (Fails args) addresses
    → find_socket args addresses ≡ return none
unfolding find_socket
find_socket-none args [] f = refl
find_socket-none args (a ∷ rest) f = ground (arith, f.0, find_socket-none args rest f.1)

module _ {F R : Type 0} where
  -- The thread once it has this socket.
  abbrev pub connected : ℕ → Io F R → Io F R
  connected socket s = record s {
    socket = some socket;
    state = some Stateful.open_state;
    loop = record s.loop { events = (Events.set s.loop.events Events.socket_opened).1 };
  }

  -- The thread that could not connect: the exception is queued and announced.
  abbrev pub unconnected : Io F R → Io F R
  unconnected s = record s {
    socket = none;
    state = some Stateful.opening_state;
    loop = record s.loop {
      exceptions = s.loop.exceptions ++ connection_exception "Could not connect" ∷ [];
      events = (Events.set s.loop.events Events.exception_raised).1;
    };
  }

  -- The addresses are tried in order: the socket of the first that can be connected becomes the
  -- thread's, whatever comes behind it; the thread is then open and SOCKET_OPENED is set, and nothing
  -- else has changed.
  pub connect-first :
      (s : Io F R) (pre post : List Address) (a : Address) (socket : ℕ)
      → All (Fails s.args) pre
      → attempt s.args a ≡ got socket
      → connect (pre ++ a ∷ post) s ≡ (return tt, connected socket s)
  unfolding connect
  connect-first s pre post a socket f h = rw (find_socket-first s.args pre post a socket f h) refl

  -- A thread whose addresses cannot be connected, of which there may be none: `run` returns without a
  -- round of the loop, the ConnectionException is queued and EXCEPTION_RAISED is set.
  pub run-unconnected :
      (marshal : F → ℕ → List ℕ) (on_read : List ℕ → Action R Unit) (s : Io F R)
      (addresses : List Address) (names : Outcome String) (turns : List Turn)
      → s.socket ≡ none
      → All (Fails s.args) addresses
      → run marshal on_read addresses names turns s ≡ (return tt, unconnected s)
  unfolding run connect
  run-unconnected marshal on_read s addresses names turns n f =
      ground (arith, n, find_socket-none s.args addresses f)
