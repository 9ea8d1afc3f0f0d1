-- ===== src/Channel/Api/Lifecycle.antt =====
-- The life of a channel (rabbitpy/channel.py): it is opened, used and closed.
use rabbitpy.Prelude.{
  ℕ, suc, ◌≡◌, refl, true, false, none, List, [], ◌∷◌, ◌++◌, map, append_between, arith,
}
use rabbitpy.Action.{return, ◌>>◌}
use rabbitpy.Stateful
use rabbitpy.Stateful.{is_closed, is_closing}
use rabbitpy.Frame.{Frame, FrameClass, Pamqp, one, by_class, class_of}
use rabbitpy.Channel.{Channel, Tick, write_frames, set_state}
use rabbitpy.Channel.Writes.{wrote, write_frame-open, write_frames-open}
use rabbitpy.Channel.Wait.{validate_frame_type, read_from_queue}
use rabbitpy.Channel.Wait.Order.{quiet, IsCalm, found_in, interleave-quiet}
use rabbitpy.Channel.Wait.Answer.{arrives, answers, rpc-answered, wait_on_frame-answered}
use rabbitpy.Channel.Api.{
  base_close, close, close_frame, exit, open_channel, command, begin_close, close_all_consumers,
}

-- Nothing is wrong on the connection, and no frame waits: a channel in any state.
pub record CanOpen (s : Channel) : Type 0 where
  pub exceptions : s.exceptions ≡ []
  pub interrupt : s.interrupt ≡ none
  pub connected : is_closed s.connection_state ≡ false
  pub queue : s.read_queue ≡ []

-- pamqp's answers to the two commands of a channel's life.
pub record Answered (pamqp : Pamqp) : Type 0 where
  pub opens :
      validate_frame_type pamqp
        (Frame.bare FrameClass.channel_open_ok)
        (one (by_class FrameClass.channel_open_ok))
      ≡ true
  pub waits : pamqp.synchronous FrameClass.channel_close ≡ true
  pub closes :
      validate_frame_type pamqp
        (Frame.bare FrameClass.channel_close_ok)
        (answers pamqp (Frame.close FrameClass.channel_close 200 "Normal Shutdown"))
      ≡ true

module _ (pamqp : Pamqp) (rounds : ℕ) (a : Answered pamqp) where
  abbrev pub in_state : ℕ → Channel → Channel
  in_state state s = record s { state = state }

  calm : (state : ℕ) (s : Channel) → is_closed state ≡ false → CanOpen s → IsCalm (in_state state s)
  calm state s o c = record {
    exceptions = c.exceptions;
    interrupt = c.interrupt;
    open_state = o;
    connected = c.connected;
  }

  -- The channel once it is open.
  abbrev pub opened : List Tick → Channel → Channel
  opened later s =
      in_state Stateful.open_state
        (found_in pamqp (wrote (Frame.bare FrameClass.channel_open ∷ []) s) [] later)

  pub open_channel-answered :
      (s : Channel) (later : List Tick)
      → CanOpen s
      → s.schedule ≡ arrives (Frame.bare FrameClass.channel_open_ok ∷ []) ∷ later
      → open_channel pamqp (suc rounds) s ≡ (return tt, opened later s)
  unfolding open_channel set_state Stateful.set_state
  open_channel-answered s later c t =
      let r : Channel = in_state Stateful.opening_state s in
      rw
        (
          write_frame-open (Frame.bare FrameClass.channel_open) r
              (record { exceptions = c.exceptions; connected = c.connected; open_state = refl }),
          wait_on_frame-answered pamqp (suc rounds) (one (by_class FrameClass.channel_open_ok))
              (wrote (Frame.bare FrameClass.channel_open ∷ []) r) [] []
              (Frame.bare FrameClass.channel_open_ok) later
              (calm Stateful.opening_state (wrote (Frame.bare FrameClass.channel_open ∷ []) s) refl
                (record {
                  exceptions = c.exceptions;
                  interrupt = c.interrupt;
                  connected = c.connected;
                  queue = c.queue;
                }))
              tt refl a.opens c.queue t (omega arith),
        )
        refl

  -- A read from an empty queue while nothing happens.
  read-nothing :
      (s : Channel) (ticks : List Tick)
      → CanOpen s
      → is_closing s.state ≡ true
      → s.schedule ≡ quiet ∷ ticks
      → read_from_queue s ≡ (return none, record s { schedule = ticks })
  unfolding read_from_queue
  read-nothing s ticks c o t =
      ground (
        arith,
        interleave-quiet (record s { schedule = ticks }),
        c.exceptions,
        c.connected,
        c.queue,
      )

  -- The channel once it is closed.
  abbrev pub closed : List Tick → Channel → Channel
  closed later s = in_state Stateful.closed_state (
      found_in pamqp (wrote (Frame.close FrameClass.channel_close 200 "Normal Shutdown" ∷ []) s) []
        later)

  command-close :
      (s : Channel) (later : List Tick)
      → CanOpen s
      → is_closed s.state ≡ false
      → s.schedule ≡ arrives (Frame.bare FrameClass.channel_close_ok ∷ []) ∷ later
      → command pamqp (suc rounds) (close_frame pamqp (suc rounds)) s ≡ (
        return tt,
        found_in pamqp
            (wrote (Frame.close FrameClass.channel_close 200 "Normal Shutdown" ∷ []) s)
            []
            later,
      )
  unfolding command close_frame class_of
  command-close s later c o t =
      rw
        (rpc-answered pamqp (suc rounds)
          (Frame.close FrameClass.channel_close 200 "Normal Shutdown") s [] []
          (Frame.bare FrameClass.channel_close_ok) later (calm s.state s o c) a.waits tt refl
          a.closes c.queue t (omega arith))
        refl

  base_close-answered :
      (s : Channel) (later : List Tick)
      → CanOpen s
      → s.schedule ≡ quiet ∷ arrives (Frame.bare FrameClass.channel_close_ok ∷ []) ∷ later
      → base_close pamqp (suc rounds) (in_state Stateful.closing_state s)
        ≡ (return tt, closed later s)
  unfolding base_close set_state Stateful.set_state
  base_close-answered s later c t =
      let ticks : List Tick = arrives (Frame.bare FrameClass.channel_close_ok ∷ []) ∷ later in
      let r : Channel = in_state Stateful.closing_state s in
      let o : CanOpen r = record {
        exceptions = c.exceptions;
        interrupt = c.interrupt;
        connected = c.connected;
        queue = c.queue;
      } in
      rw
        (
          c.connected,
          read-nothing r ticks o refl t,
          command-close (record r { schedule = ticks }) later
              (record {
                exceptions = c.exceptions;
                interrupt = c.interrupt;
                connected = c.connected;
                queue = c.queue;
              })
              refl refl,
        )
        refl

  begin_close-open :
      (s : Channel)
      → CanOpen s
      → is_closed s.state ≡ false
      → begin_close pamqp (suc rounds) s ≡ (return tt, in_state Stateful.closing_state s)
  unfolding begin_close set_state Stateful.set_state
  begin_close-open s c o = ground (arith, c.connected)

  close_all_consumers-none :
      (s : Channel) → s.consumers ≡ [] → close_all_consumers pamqp (suc rounds) s ≡ (return tt, s)
  unfolding close_all_consumers
  close_all_consumers-none s n = ground arith

  pub close-answered :
      (s : Channel) (later : List Tick)
      → CanOpen s
      → is_closed s.state ≡ false
      → s.consumers ≡ []
      → s.schedule ≡ quiet ∷ arrives (Frame.bare FrameClass.channel_close_ok ∷ []) ∷ later
      → close pamqp (suc rounds) s ≡ (return tt, closed later s)
  unfolding close
  close-answered s later c o n t =
      rw
        (
          begin_close-open s c o,
          close_all_consumers-none (in_state Stateful.closing_state s) n,
          base_close-answered s later c t,
        )
        refl

-- A channel that is opened, queues frames and is left as a context manager without an exception, on
-- a calm connection whose server answers both commands, with an empty read queue and no consumers:
-- Channel.Open, the frames and Channel.Close are queued in this order, and the channel is closed.
pub lifecycle_lem :
    (pamqp : Pamqp) (rounds : ℕ) (frames : List Frame) (s : Channel) (later : List Tick)
    → Answered pamqp
    → CanOpen s
    → s.consumers ≡ []
    → s.schedule
      ≡ arrives (Frame.bare FrameClass.channel_open_ok ∷ [])
        ∷ quiet
        ∷ arrives (Frame.bare FrameClass.channel_close_ok ∷ [])
        ∷ later
    → let r =
        (open_channel pamqp (suc rounds) >> write_frames frames >> exit pamqp (suc rounds) none)
          s in
      (r.0 ≡ return tt)
      × (r.1.state ≡ Stateful.closed_state)
      × (r.1.write_queue
          ≡ s.write_queue
            ++ map
                (λ f. (s.channel_id, f))
                (Frame.bare FrameClass.channel_open ∷ frames
                  ++ Frame.close FrameClass.channel_close 200 "Normal Shutdown" ∷ []))
unfolding exit
lifecycle_lem pamqp rounds frames s later a c n t =
    let ticks : List Tick = quiet ∷ arrives (Frame.bare FrameClass.channel_close_ok ∷ []) ∷ later in
    let r : Channel = opened pamqp rounds a ticks s in
    rw
      (
        open_channel-answered pamqp rounds a s ticks c t,
        write_frames-open frames r
            (record { exceptions = c.exceptions; connected = c.connected; open_state = refl }),
        close-answered pamqp rounds a (wrote frames r) later
            (record {
              exceptions = c.exceptions;
              interrupt = c.interrupt;
              connected = c.connected;
              queue = refl;
            })
            refl n refl,
      )
      (refl, refl, append_between (λ f. (s.channel_id, f)) _ _ s.write_queue frames)
