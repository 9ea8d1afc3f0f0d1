-- ===== src/Exchange/Commands.antt =====
-- Sequences of commands on one exchange (rabbitpy/exchange.py), each answered by the server.
use mathlib.Core.Path.{subst}
use rabbitpy.Prelude.{
  ℕ, suc, ◌≡◌, refl, sym, ◌∙◌, Bool, String, Option, List, [], ◌∷◌, ◌++◌, map, append-nil,
  append_assoc,
}
use rabbitpy.Action.{Action, return, pure, ◌>>◌}
use rabbitpy.Frame.{Frame, FrameClass, Pamqp}
use rabbitpy.Channel.{Tick}
use rabbitpy.Channel.Wait.Order.{IsCalm}
use rabbitpy.Channel.Wait.Answer.{arrives}
use rabbitpy.Channel.Api.Commands.{IsAnswer, answered, answered-IsCalm, channel_rpc-answered}
use rabbitpy.Exchange.{Exchange, bind, declare, delete, unbind, command, declare_frame}

-- The methods of an exchange, with their arguments.
pub data Operation : Type 0 where
  declares : (passive : Bool) → Operation
  binds unbinds : (source : String) (routing_key : Option String) → Operation
  deletes : (if_unused : Bool) → Operation

-- What each of them should send.
abbrev pub sends : Operation → Exchange → Frame
sends (declares passive) s =
    Frame.declare_exchange s.name s.type s.durable passive s.auto_delete s.arguments
sends (binds source key) s = Frame.bind_exchange FrameClass.exchange_bind s.name source key
sends (unbinds source key) s = Frame.bind_exchange FrameClass.exchange_unbind s.name source key
sends (deletes if_unused) s = Frame.delete_exchange s.name if_unused

module _ (pamqp : Pamqp) (rounds : ℕ) where
  abbrev pub perform : Operation → Action Exchange Unit
  perform (declares passive) = declare pamqp rounds passive
  perform (binds source key) = bind pamqp rounds source key
  perform (unbinds source key) = unbind pamqp rounds source key
  perform (deletes if_unused) = delete pamqp rounds if_unused

  abbrev pub run : List Operation → Action Exchange Unit
  run [] = pure tt
  run (o ∷ os) = perform o >> run os

-- One answered command: the channel that is left, and the exchange around it.
abbrev after : Pamqp → Operation → List Tick → Exchange → Exchange
after pamqp o later s = record s { channel = answered pamqp (sends o s) later s.channel }

module _ (pamqp : Pamqp) (rounds : ℕ) where
  command-answered :
      (frame : Exchange → Frame) (s : Exchange) (answer : Frame) (later : List Tick)
      → IsCalm s.channel
      → s.channel.read_queue ≡ []
      → s.channel.schedule ≡ arrives (answer ∷ []) ∷ later
      → IsAnswer pamqp (frame s) answer
      → command pamqp (suc rounds) frame s
        ≡ (return tt, record s { channel = answered pamqp (frame s) later s.channel })
  unfolding command
  command-answered frame s answer later c q t a =
      rw (channel_rpc-answered pamqp rounds (frame s) s.channel answer later c q t a) refl

  perform-answered :
      (o : Operation) (s : Exchange) (answer : Frame) (later : List Tick)
      → IsCalm s.channel
      → s.channel.read_queue ≡ []
      → s.channel.schedule ≡ arrives (answer ∷ []) ∷ later
      → IsAnswer pamqp (sends o s) answer
      → perform pamqp (suc rounds) o s ≡ (return tt, after pamqp o later s)
  unfolding bind declare delete unbind declare_frame
  perform-answered (declares p) s answer later c q t a =
      command-answered (declare_frame p) s answer later c q t a
  perform-answered (binds source key) s answer later c q t a =
      command-answered (sends (binds source key)) s answer later c q t a
  perform-answered (unbinds source key) s answer later c q t a =
      command-answered (sends (unbinds source key)) s answer later c q t a
  perform-answered (deletes u) s answer later c q t a =
      command-answered (sends (deletes u)) s answer later c q t a

-- The server answers each operation in turn.
abbrev pub Serves : Pamqp → List Operation → List Tick → Exchange → Type 0
Serves pamqp [] ticks s = Unit
Serves pamqp (o ∷ os) ticks s =
    (answer : Frame) × (later : List Tick) × (ticks ≡ arrives (answer ∷ []) ∷ later)
    × IsAnswer pamqp (sends o s) answer
    × Serves pamqp os later s

sends-after :
    (pamqp : Pamqp) (o p : Operation) (later : List Tick) (s : Exchange)
    → sends o (after pamqp p later s) ≡ sends o s
sends-after pamqp (declares passive) p later s = refl
sends-after pamqp (binds source key) p later s = refl
sends-after pamqp (unbinds source key) p later s = refl
sends-after pamqp (deletes if_unused) p later s = refl

-- The same from an exchange `s` that sends what the exchange `e` would send.
run-sends_as :
    (pamqp : Pamqp) (rounds : ℕ) (os : List Operation) (s e : Exchange)
    → ((o : Operation) → sends o s ≡ sends o e)
    → IsCalm s.channel
    → s.channel.read_queue ≡ []
    → Serves pamqp os s.channel.schedule e
    → ((run pamqp (suc rounds) os s).0 ≡ return tt)
      × ((run pamqp (suc rounds) os s).1.channel.write_queue
          ≡ s.channel.write_queue ++ map (λ o. (s.channel.channel_id, sends o e)) os)
run-sends_as pamqp rounds [] s e h c q _ = (refl, sym (append-nil s.channel.write_queue))
run-sends_as pamqp rounds (o ∷ os) s e h c q (answer, later, t, a, more) =
    let numbered : Operation → ℕ × Frame = λ o. (s.channel.channel_id, sends o e) in
    let (r, w) =
      run-sends_as pamqp rounds os (after pamqp o later s) e
        (λ p. sends-after pamqp p o later s ∙ h p)
        (answered-IsCalm pamqp (sends o s) later s.channel c) refl more in
    let queued : (s.channel.write_queue ++ (s.channel.channel_id, sends o s) ∷ [])
          ++ map numbered os
        ≡ s.channel.write_queue ++ map numbered (o ∷ os) =
      rw (h o) (append_assoc s.channel.write_queue (numbered o ∷ []) (map numbered os)) in
    rw
      (perform-answered pamqp rounds o s answer later c q t
        (subst (λ frame. IsAnswer pamqp frame answer) (sym (h o)) a))
      (r, w ∙ queued)

-- An exchange on a calm channel with an empty read queue, whose server answers each operation: every
-- sequence of declarations, bindings, unbindings and deletions returns, and has queued the commands
-- that the operations stand for, in order and with the attributes that the exchange had at first.
pub run-sends :
    (pamqp : Pamqp) (rounds : ℕ) (os : List Operation) (s : Exchange)
    → IsCalm s.channel
    → s.channel.read_queue ≡ []
    → Serves pamqp os s.channel.schedule s
    → let r = run pamqp (suc rounds) os s in
      (r.0 ≡ return tt)
      × (r.1.channel.write_queue
          ≡ s.channel.write_queue ++ map (λ o. (s.channel.channel_id, sends o s)) os)
run-sends pamqp rounds os s c q h = run-sends_as pamqp rounds os s s (λ o. refl) c q h
