-- ===== src/Simple/Session.antt =====
-- A block on a channel of its own with a server that answers (rabbitpy/simple.py): the channel is
-- opened, the block is an action on it, and the channel and the connection are closed.
pub mod Writes
use rabbitpy.Prelude.{
  ℕ, suc, ◌≡◌, refl, Bool, true, false, String, Option, some, List, [], ◌∷◌, ◌++◌,
}
use rabbitpy.Action.{Action, return}
use rabbitpy.Stateful
use rabbitpy.Stateful.{is_closed}
use rabbitpy.Frame.{Frame, FrameClass, Pamqp, Value}
use rabbitpy.Channel.{Channel, Tick}
use rabbitpy.Channel.Wait.Order.{quiet}
use rabbitpy.Channel.Wait.Answer.{arrives}
use rabbitpy.Channel.Api.Lifecycle
use rabbitpy.Channel.Api.Lifecycle.{Answered, CanOpen, opened, closed, open_channel-answered}
use rabbitpy.Channel0.{Channel0}
use rabbitpy.Connection.{get_next_channel_id}
use rabbitpy.Connection.State.{Connection, lend, take_back}
use rabbitpy.Connection.Opening.{connect}
use rabbitpy.Connection.Closing.{close, close_channel, find, put, live}
use rabbitpy.Connection.Closing.Answered.{Runs, answers, idle, running_events, close-answered}
use rabbitpy.Connection.Channels.{capabilities_in}
use rabbitpy.Connection.Channels.Added.{own_channel, channel-answered}
use rabbitpy.Simple.{
  on_channel, with_channel, closing, close_channel_if, close_connection_if, enter,
}
use rabbitpy.Simple.Context.{has_ended, leave-ended}

-- The connection whose only channel is this one.
abbrev pub holding : Channel → Connection → Connection
holding c s = take_back c (record s { channels = (1, c) ∷ [] })

-- An open connection without a channel, on which nothing is wrong, with its channel 0,
-- which knows these properties of the server.
pub record IsReady (s : Connection) (t : Channel0) (properties : List (String × Value))
    : Type 0 where
  pub known : t.properties ≡ some properties
  pub exceptions : s.exceptions ≡ []
  pub state : s.state ≡ Stateful.open_state
  pub events : s.events ≡ running_events
  pub channel0 : s.channel0 ≡ some t
  pub open_state : t.channel.state ≡ Stateful.open_state
  pub channels : s.channels ≡ []
  pub io_alive : s.io_alive ≡ true

-- How the block leaves its channel: open and calm, without consumers, with an empty read queue, before
-- the server answers Channel.Close.
pub record IsLeft (later : List Tick) (c : Channel) : Type 0 where
  pub can : CanOpen c
  pub connected : c.connection_state ≡ Stateful.open_state
  pub open_state : is_closed c.state ≡ false
  pub consumers : c.consumers ≡ []
  pub schedule : c.schedule ≡ quiet ∷ arrives (Frame.bare FrameClass.channel_close_ok ∷ []) ∷ later

module _ {A : Type 0} (m : Action Channel A) (c : Channel) (s : Connection) where
  on_channel-holding : on_channel 1 m (holding c s) ≡ ((m c).0, holding (m c).1 s)
  unfolding on_channel find put lend take_back
  on_channel-holding = refl

module _ (pamqp : Pamqp) (rounds : ℕ) (a : Answered pamqp) (later : List Tick) where
  close_channel_if-holding :
      (c : Channel) (s : Connection)
      → IsLeft later c
      → close_channel_if pamqp (suc rounds) 1 (holding c s)
        ≡ (return tt, holding (closed pamqp rounds a later c) s)
  unfolding close_channel_if close_channel find put lend take_back
  close_channel_if-holding c s l =
      rw
        (
          l.open_state,
          Lifecycle.close-answered pamqp rounds a c later l.can l.open_state l.consumers l.schedule,
        )
        refl

  closing-holding :
      (c : Channel) (s : Connection)
      → IsLeft later c
      → closing pamqp (suc rounds) 1 (holding c s)
        ≡ close pamqp (suc rounds) (holding (closed pamqp rounds a later c) s)
  unfolding closing close_connection_if take_back
  closing-holding c s l =
      let o : is_closed c.connection_state ≡ false = rw l.connected refl in
      rw (close_channel_if-holding c s l, o) refl

  -- The connection once its channel is closed.
  closed-Runs :
      (c : Channel) (s : Connection) (t : Channel0) (properties : List (String × Value))
      → IsLeft later c
      → IsReady s t properties
      → pamqp.synchronous FrameClass.connection_close ≡ true
      → Runs pamqp (holding (closed pamqp rounds a later c) s) t
  unfolding take_back live
  closed-Runs c s t properties l r w = record {
    exceptions = l.can.exceptions;
    state = l.connected;
    events = r.events;
    channel0 = r.channel0;
    open_state = r.open_state;
    channels = refl;
    io_alive = r.io_alive;
    waits = w;
  }

module _ (pamqp : Pamqp) (rounds : ℕ) (a : Answered pamqp) (table_of : Value → List (String × Bool))
    (properties : List (String × Value)) (ticks : List Tick) where
  abbrev answered_channel : Connection → Channel
  answered_channel c =
      own_channel pamqp rounds a (capabilities_in table_of properties) false ticks 1 c

  enter-ready :
      (s c : Connection) (t : Channel0)
      → connect pamqp (suc rounds) s ≡ (return tt, c)
      → IsReady c t properties
      → enter pamqp
          (suc rounds)
          table_of
          (arrives (Frame.bare FrameClass.channel_open_ok ∷ []) ∷ ticks)
          s
        ≡ (return 1, holding (answered_channel c) c)
  unfolding enter get_next_channel_id
  enter-ready s c t e r =
      rw
        (
          e,
          channel-answered table_of false pamqp rounds a c t properties 1 ticks r.exceptions
              (rw r.state refl) r.channel0 r.known (rw r.channels refl),
          r.channels,
        )
        refl

  -- A block whose action on the channel ends with a value or an exception and leaves the channel calm,
  -- on a connection that could be made, whose server answers Channel.Open, Channel.Close and
  -- Connection.Close: the whole ends as the action did, the connection is closed, the IO thread has
  -- ended, and behind what the action has queued stand Channel.Close and Connection.Close alone.
  pub session-answered :
      {A : Type 0} (version : ℕ × ℕ) (system : Option String)
      (close_connection : Action Channel0 Unit) (m : Action Channel A) (s c : Connection)
      (t : Channel0) (later : List Tick)
      → connect pamqp (suc rounds) s ≡ (return tt, c)
      → IsReady c t properties
      → c.schedule
        ≡ answers version system close_connection ∷ idle ∷ record idle { io_alive = false } ∷ []
      → pamqp.synchronous FrameClass.connection_close ≡ true
      → let left = m (answered_channel c) in
        has_ended left.0 ≡ true
        → IsLeft later left.1
        → let r =
            with_channel pamqp
              (suc rounds)
              table_of
              (arrives (Frame.bare FrameClass.channel_open_ok ∷ []) ∷ ticks)
              (λ id. on_channel id m)
              s in
          (r.0 ≡ left.0)
          × (r.1.state ≡ Stateful.closed_state)
          × (r.1.io_alive ≡ false)
          × (r.1.write_queue
              ≡ (left.1.write_queue
                  ++ (left.1.channel_id, Frame.close FrameClass.channel_close 200 "Normal Shutdown")
                    ∷ [])
                ++ (t.channel.channel_id, Frame.bare FrameClass.connection_close) ∷ [])
  unfolding with_channel take_back
  session-answered version system close_connection m s c t later e r sch w h l =
      let d : Channel = answered_channel c in
      let v : Connection = holding (closed pamqp rounds a later (m d).1) c in
      let (ends, state, alive, queue) =
        close-answered pamqp (suc rounds) version system close_connection v t
          (closed-Runs pamqp rounds a later (m d).1 c t properties l r w) sch in
      let closes = closing-holding pamqp rounds a later (m d).1 c l in
      rw
        (
          enter-ready s c t e r,
          on_channel-holding m d c,
          leave-ended pamqp (suc rounds) 1 (m d).0 (holding (m d).1 c) h (rw closes ends),
          closes,
        )
        (refl, state, alive, queue)
