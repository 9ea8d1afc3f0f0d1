-- ===== src/Tx/Context.antt =====
-- A transaction as a context manager (rabbitpy/tx.py, `__enter__` and `__exit__`).
use rabbitpy.Prelude.{
  ℕ, suc, ◌≡◌, refl, true, false, Option, none, some, List, [], ◌∷◌, ◌++◌, arith, map,
  append_between,
}
use rabbitpy.Exceptions.{Exception}
use rabbitpy.Action.{Action, Outcome, return, raise, ◌>>◌}
use rabbitpy.Frame.{Frame, FrameClass, Pamqp, class_of}
use rabbitpy.Channel.{Channel, Tick, write_frames}
use rabbitpy.Channel.Writes.{wrote, write_frames-open}
use rabbitpy.Channel.Wait.{rpc, validate_frame_type}
use rabbitpy.Channel.Wait.Order.{IsCalm, found_in, is_request}
use rabbitpy.Channel.Wait.Answer.{arrives, answers, rpc-answered}
use rabbitpy.Tx.{Tx, on_channel, enter, exit}

-- pamqp's commands of this class wait for the answer of that class.
pub record Answers (pamqp : Pamqp) (command answer : FrameClass) : Type 0 where
  pub waits : pamqp.synchronous command ≡ true
  pub fits :
      validate_frame_type pamqp (Frame.bare answer) (answers pamqp (Frame.bare command)) ≡ true

-- The command with which the context is left, its answer, and what comes out.
abbrev pub closing_command : Option Exception → FrameClass
closing_command none = FrameClass.tx_commit
closing_command (some e) = FrameClass.tx_rollback

abbrev pub closing_answer : Option Exception → FrameClass
closing_answer none = FrameClass.tx_commit_ok
closing_answer (some e) = FrameClass.tx_rollback_ok

abbrev pub outcome : Option Exception → Outcome (Unit {0})
outcome none = return tt
outcome (some e) = raise e

module _ (pamqp : Pamqp) (rounds : ℕ) where
  ask :
      (command answer : FrameClass) (s : Channel) (later : List Tick)
      → Answers pamqp command answer
      → is_request (Frame.bare answer) ≡ false
      → IsCalm s
      → s.read_queue ≡ []
      → s.schedule ≡ arrives (Frame.bare answer ∷ []) ∷ later
      → rpc pamqp (suc rounds) (Frame.bare command) s ≡ (
        return (some (Frame.bare answer)),
        found_in pamqp (wrote (Frame.bare command ∷ []) s) [] later,
      )
  unfolding class_of
  ask command answer s later a p c q t =
      rpc-answered pamqp (suc rounds) (Frame.bare command) s [] [] (Frame.bare answer) later c
        a.waits tt p a.fits q t (omega arith)

  exit-closes :
      (problem : Option Exception) (s : Tx) (later : List Tick)
      → Answers pamqp (closing_command problem) (closing_answer problem)
      → IsCalm s.channel
      → s.channel.read_queue ≡ []
      → s.channel.schedule ≡ arrives (Frame.bare (closing_answer problem) ∷ []) ∷ later
      → s.selected ≡ true
      → exit pamqp (suc rounds) problem s ≡ (
        outcome problem,
        record s {
          channel =
              found_in pamqp (wrote (Frame.bare (closing_command problem) ∷ []) s.channel) [] later;
          selected = false;
        },
      )
  unfolding exit
  exit-closes none s later a c q t h =
      rw (h, ask FrameClass.tx_commit FrameClass.tx_commit_ok s.channel later a refl c q t) refl
  exit-closes (some e) s later a c q t h =
      rw (h, ask FrameClass.tx_rollback FrameClass.tx_rollback_ok s.channel later a refl c q t) refl

  -- The body of the context publishes these frames, and may then raise.
  abbrev pub context : List Frame → Option Exception → Action Tx Unit
  context frames problem =
      enter pamqp (suc rounds)
      >> on_channel (write_frames frames)
      >> exit pamqp (suc rounds) problem

  module _ (frames : List Frame) (problem : Option Exception) (s : Tx) (later : List Tick)
      (selects : Answers pamqp FrameClass.tx_select FrameClass.tx_select_ok)
      (closes : Answers pamqp (closing_command problem) (closing_answer problem))
      (c : IsCalm s.channel) (q : s.channel.read_queue ≡ [])
      (t : s.channel.schedule
        ≡ arrives (Frame.bare FrameClass.tx_select_ok ∷ [])
          ∷ arrives (Frame.bare (closing_answer problem) ∷ [])
          ∷ later) where
    abbrev rest : List Tick
    rest = arrives (Frame.bare (closing_answer problem) ∷ []) ∷ later

    abbrev entered : Tx
    entered = record s {
      channel = found_in pamqp (wrote (Frame.bare FrameClass.tx_select ∷ []) s.channel) [] rest;
      selected = true;
    }

    enter-selects : enter pamqp (suc rounds) s ≡ (return tt, entered)
    unfolding enter class_of
    enter-selects =
        rw (ask FrameClass.tx_select FrameClass.tx_select_ok s.channel rest selects refl c q t) refl

    abbrev published : Tx
    published = record entered { channel = wrote frames entered.channel }

    abbrev left : Tx
    left = record published {
      channel =
          found_in pamqp (wrote (Frame.bare (closing_command problem) ∷ []) published.channel) []
            later;
      selected = false;
    }

    context-eq : context frames problem s ≡ (outcome problem, left)
    context-eq =
        rw
          (
            enter-selects,
            write_frames-open frames entered.channel (record {
              exceptions = c.exceptions;
              connected = c.connected;
              open_state = c.open_state;
            }),
          )
          (exit-closes problem published later closes
            (record {
              exceptions = c.exceptions;
              interrupt = c.interrupt;
              open_state = c.open_state;
              connected = c.connected;
            })
            refl refl refl)

-- A transaction as a context manager on a calm channel with an empty read queue, whose server
-- answers each command with that answer alone: it queues Tx.Select, then the frames of its body,
-- and then Tx.Commit, or Tx.Rollback if the body raised, whose exception then comes out. Afterwards
-- no transaction is selected.
pub context_lem :
    (pamqp : Pamqp) (rounds : ℕ) (frames : List Frame) (problem : Option Exception) (s : Tx)
    (later : List Tick)
    → Answers pamqp FrameClass.tx_select FrameClass.tx_select_ok
    → Answers pamqp (closing_command problem) (closing_answer problem)
    → IsCalm s.channel
    → s.channel.read_queue ≡ []
    → s.channel.schedule
      ≡ arrives (Frame.bare FrameClass.tx_select_ok ∷ [])
        ∷ arrives (Frame.bare (closing_answer problem) ∷ [])
        ∷ later
    → ((context pamqp rounds frames problem s).0 ≡ outcome problem)
      × ((context pamqp rounds frames problem s).1.channel.write_queue
          ≡ s.channel.write_queue
            ++ map
                (λ f. (s.channel.channel_id, f))
                (Frame.bare FrameClass.tx_select ∷ frames
                  ++ Frame.bare (closing_command problem) ∷ []))
      × ((context pamqp rounds frames problem s).1.selected ≡ false)
context_lem pamqp rounds frames problem s later selects closes c q t =
    rw (context-eq pamqp rounds frames problem s later selects closes c q t) (
      refl,
      append_between (λ f. (s.channel.channel_id, f)) (Frame.bare FrameClass.tx_select)
          (Frame.bare (closing_command problem)) s.channel.write_queue frames,
      refl,
    )
