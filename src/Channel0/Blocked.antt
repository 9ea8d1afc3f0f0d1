-- ===== src/Channel0/Blocked.antt =====
-- Connection.blocked over the frames that channel 0 is given (rabbitpy/channel0.py, `on_frame`).
use rabbitpy.Prelude.{ℕ, ◌≡◌, Bool, true, false, String, Option, some, List, [], ◌∷◌, arith, All}
use rabbitpy.Action.{Action}
use rabbitpy.Stateful
use rabbitpy.Events
use rabbitpy.Events.{Events, is_set}
use rabbitpy.Events.Laws.{set_lem, clear_lem}
use rabbitpy.Frame.{Frame, FrameClass}
use rabbitpy.Channel0.{Channel0, on_frame, write}

-- What a frame says about the connection being blocked.
abbrev pub next_blocked : Bool → Frame → Bool
next_blocked b (Frame.blocked_by reason) = true
next_blocked b (Frame.bare FrameClass.connection_unblocked) = false
next_blocked b value = b

abbrev pub last_blocked : Bool → List Frame → Bool
last_blocked b [] = b
last_blocked b (f ∷ fs) = last_blocked (next_blocked b f) fs

abbrev pub is_remote_close : Frame → Bool
is_remote_close (Frame.close FrameClass.connection_close code reason) = true
is_remote_close value = false

module _ (version : ℕ × ℕ) (system : Option String) (close_connection : Action Channel0 Unit) where
  -- Channel 0 after these frames, whatever each of them raised.
  abbrev pub after_frames : List Frame → Channel0 → Channel0
  after_frames [] s = s
  after_frames (f ∷ fs) s = after_frames fs (on_frame version system close_connection f s).1

  on_frame-blocked :
      (f : Frame) (s : Channel0) (b : Bool)
      → is_remote_close f ≡ false
      → is_set s.events Events.connection_blocked ≡ some b
      → is_set (on_frame version system close_connection f s).1.events Events.connection_blocked
        ≡ some (next_blocked b f)
  unfolding on_frame write Events.set Events.clear Stateful.set_state
  on_frame-blocked f s b p h = ground (
    arith,
    set_lem s.events Events.connection_blocked Events.connection_blocked,
    set_lem s.events Events.channel0_closed Events.connection_blocked,
    set_lem s.events Events.channel0_opened Events.connection_blocked,
    clear_lem s.events Events.connection_blocked Events.connection_blocked,
  )

-- Whatever frames other than Connection.Close channel 0 is given, and whatever each of them raises,
-- afterwards the connection is blocked exactly if the last of its Blocked and Unblocked frames was
-- Blocked, or, without any, if it was blocked before.
pub after_frames-blocked :
    (version : ℕ × ℕ) (system : Option String) (close_connection : Action Channel0 Unit)
    (frames : List Frame) (s : Channel0) (b : Bool)
    → All (λ f. is_remote_close f ≡ false) frames
    → is_set s.events Events.connection_blocked ≡ some b
    → is_set
        (after_frames version system close_connection frames s).events
        Events.connection_blocked
      ≡ some (last_blocked b frames)
after_frames-blocked version system close_connection [] s b p h = h
after_frames-blocked version system close_connection (f ∷ fs) s b p h =
    after_frames-blocked version system close_connection fs
      (on_frame version system close_connection f s).1 (next_blocked b f) p.1
      (on_frame-blocked version system close_connection f s b p.0 h)
