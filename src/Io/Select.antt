-- ===== src/Io/Select.antt =====
-- rabbitpy/io.py: _SelectPoller, and the choice of a poller by what the module select has.
use rabbitpy.Prelude.{ℕ, Bool, true, false, Option, none, some, List, [], ◌∷◌, map}
use rabbitpy.Io.Poll.{Ready, nothing}

-- The arguments of select.select but for the timeout.
pub record Select : Type 0 where
  pub rlist : List ℕ
  pub wlist : List ℕ
  pub xlist : List ℕ

-- `self.read` and `self.write`
pub record Poller : Type 0 where
  pub read : Select
  pub write : Select

pub new_poller : (fd write_trigger : ℕ) → Poller
new_poller fd write_trigger = record {
  read = record { rlist = fd ∷ write_trigger ∷ []; wlist = []; xlist = fd ∷ [] };
  write = record { rlist = fd ∷ write_trigger ∷ []; wlist = fd ∷ []; xlist = fd ∷ [] };
}

-- `poll`: `select` answers by its arguments, with none for its error; `fileno` is that of a socket.
pub poll : (fileno : ℕ → ℕ) (select : Select → Option Ready) (write_wanted : Bool) → Poller → Ready
poll fileno select write_wanted s =
    elim (select (elim write_wanted [ true ↦ s.write | false ↦ s.read ])) [
      | none ↦ nothing
      | some r ↦ record {
        readable = map fileno r.readable;
        writable = map fileno r.writable;
        failed = map fileno r.failed;
      }
    ]

pub data Choice : Type 0 where
  kqueue_poller poll_poller select_poller : Choice

-- `_create_poller`
pub create_poller : (has_kqueue has_poll : Bool) → Choice
create_poller true has_poll = kqueue_poller
create_poller false true = poll_poller
create_poller false false = select_poller
