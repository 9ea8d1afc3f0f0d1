-- ===== src/Simple/Session/Writes.antt =====
-- A block on a channel of its own that does no more than to write frames (rabbitpy/simple.py), with a
-- server that answers Channel.Open and Channel.Close.
use rabbitpy.Prelude.{
  ℕ, suc, ◌≡◌, refl, ◌∙◌, ap, Bool, true, false, String, Option, some, List, [], ◌∷◌, ◌++◌, map,
  append_assoc,
}
use rabbitpy.Action.{Action, return}
use rabbitpy.Stateful
use rabbitpy.Frame.{Frame, FrameClass, Pamqp, Value}
use rabbitpy.Channel.{Channel, Tick}
use rabbitpy.Channel.Writes.{wrote}
use rabbitpy.Channel.Wait.Order.{quiet}
use rabbitpy.Channel.Wait.Answer.{arrives}
use rabbitpy.Channel.Api.Lifecycle.{Answered}
use rabbitpy.Channel0.{Channel0}
use rabbitpy.Connection.State.{Connection, lend}
use rabbitpy.Connection.Opening.{connect}
use rabbitpy.Connection.Closing.Answered.{answers, idle}
use rabbitpy.Connection.Channels.{capabilities_in, new_channel}
use rabbitpy.Connection.Channels.Added.{own_channel}
use rabbitpy.Simple.Functions.{simply}
use rabbitpy.Simple.Session.{IsReady, IsLeft, session-answered}

abbrev pub after_open : List Tick
after_open = quiet ∷ arrives (Frame.bare FrameClass.channel_close_ok ∷ []) ∷ []

abbrev pub channel_ticks : List Tick
channel_ticks = arrives (Frame.bare FrameClass.channel_open_ok ∷ []) ∷ after_open

-- The frames of the whole run behind those of the negotiation.
abbrev pub conversation : ℕ → List Frame → List (ℕ × Frame)
conversation channel0_id frames =
    (1, Frame.bare FrameClass.channel_open) ∷ map (λ f. (1, f)) frames
    ++ (1, Frame.close FrameClass.channel_close 200 "Normal Shutdown")
      ∷ (channel0_id, Frame.bare FrameClass.connection_close)
      ∷ []

regroup :
    {A : Type 0} (q fs : List A) (a b c : A)
    → ((((q ++ a ∷ []) ++ fs) ++ b ∷ []) ++ c ∷ []) ≡ q ++ (a ∷ fs ++ b ∷ c ∷ [])
regroup q fs a b c = simp append_assoc

-- A block that only writes frames to its channel, on a connection that has been made.
pub session-writes :
    {A : Type 0} (pamqp : Pamqp) (rounds : ℕ) (a : Answered pamqp)
    (table_of : Value → List (String × Bool)) (properties : List (String × Value)) (version : ℕ × ℕ)
    (system : Option String) (close_connection : Action Channel0 Unit) (m : Action Channel A)
    (x : A) (frames : List Frame) (s c : Connection) (t : Channel0)
    → connect pamqp (suc rounds) s ≡ (return tt, c)
    → IsReady c t properties
    → c.schedule
      ≡ answers version system close_connection ∷ idle ∷ record idle { io_alive = false } ∷ []
    → pamqp.synchronous FrameClass.connection_close ≡ true
    → let d =
        own_channel pamqp rounds a (capabilities_in table_of properties) false after_open 1 c in
      m d ≡ (return x, wrote frames d)
      → let r = simply pamqp (suc rounds) table_of channel_ticks (return s) m in
        (r.0 ≡ return x)
        × ((u : Connection) × (r.1 ≡ some u)
            × (u.state ≡ Stateful.closed_state)
            × (u.io_alive ≡ false)
            × (u.write_queue ≡ c.write_queue ++ conversation t.channel.channel_id frames))
unfolding simply new_channel lend
session-writes pamqp rounds a table_of properties version system close_connection m x frames s c t e
      r sch w p =
    let d : Channel =
      own_channel pamqp rounds a (capabilities_in table_of properties) false after_open 1 c in
    let left : IsLeft [] (m d).1 = rw p (record {
      can = record {
        exceptions = r.exceptions;
        interrupt = refl;
        connected = rw r.state refl;
        queue = refl;
      };
      connected = r.state;
      open_state = refl;
      consumers = refl;
      schedule = refl;
    }) in
    let (ends, state, alive, queue) =
      session-answered pamqp rounds a table_of properties after_open version system close_connection
        m s c t [] e r sch w (rw p refl) left in
    (ends ∙ ap (λ q. q.0) p, (_, refl, state, alive, queue ∙ rw p (regroup c.write_queue _ _ _ _)))
