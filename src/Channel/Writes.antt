-- ===== src/Channel/Writes.antt =====
-- When a frame is written (rabbitpy/base.py, `write_frame` and `write_frames`).
use rabbitpy.Prelude.{
  ◌+◌, ◌≡◌, refl, ap, ◌⊎◌, inl, inr, Bool, true, false, List, [], ◌∷◌, ◌++◌, map, arith,
}
use rabbitpy.Exceptions.{Exception, channel_closed, connection_closed}
use rabbitpy.Action.{Outcome, return, raise}
use rabbitpy.Stateful.{is_closed}
use rabbitpy.Frame.{Frame}
use rabbitpy.Channel.{Channel, write_frame, write_frames}

-- No exception is queued, and neither the connection nor the channel is closed.
pub record CanWrite (s : Channel) : Type 0 where
  pub exceptions : s.exceptions ≡ []
  pub connected : is_closed s.connection_state ≡ false
  pub open_state : is_closed s.state ≡ false

-- The channel after it has queued these frames and woken the IO thread once.
abbrev pub wrote : List Frame → Channel → Channel
wrote frames s = record s {
  write_queue = s.write_queue ++ map (λ f. (s.channel_id, f)) frames;
  wakeups = s.wakeups + 1;
}

-- Nothing was written: an exception came out, and only the exception queue may be shorter.
pub record Refused (r : Outcome (Unit {0})) (s t : Channel) : Type 0 where
  pub exception : Exception
  pub raised : r ≡ raise exception
  pub rest : List Exception
  pub unchanged : t ≡ record s { exceptions = rest }

pub write_frame-open :
    (f : Frame) (s : Channel) → CanWrite s → write_frame f s ≡ (return tt, wrote (f ∷ []) s)
unfolding write_frame
write_frame-open f s c = ground (arith, c.exceptions, c.connected, c.open_state)

pub write_frames-open :
    (fs : List Frame) (s : Channel) → CanWrite s → write_frames fs s ≡ (return tt, wrote fs s)
unfolding write_frames
write_frames-open fs s c = ground (arith, c.exceptions, c.connected, c.open_state)

-- `write_frames` queues all of its frames, in order and under the channel's id, and wakes the IO
-- thread once, exactly on a channel that can write; otherwise it raises and queues none of them.
pub write_frames_cases :
    (fs : List Frame) (s : Channel)
    → CanWrite s × (write_frames fs s ≡ (return tt, wrote fs s))
      ⊎ ¬ CanWrite s × Refused (write_frames fs s).0 s (write_frames fs s).1
write_frames_cases fs s = queued s.exceptions refl
  where
    refuses :
        (e : Exception) (rest : List Exception)
        → write_frames fs s ≡ (raise e, record s { exceptions = rest })
        → Refused (write_frames fs s).0 s (write_frames fs s).1
    refuses e rest h = record {
      exception = e;
      raised = ap (λ p. p.0) h;
      rest = rest;
      unchanged = ap (λ p. p.1) h;
    }

    tests :
        (c o : Bool)
        → s.exceptions ≡ []
        → is_closed s.connection_state ≡ c
        → is_closed s.state ≡ o
        → CanWrite s × (write_frames fs s ≡ (return tt, wrote fs s))
          ⊎ ¬ CanWrite s × Refused (write_frames fs s).0 s (write_frames fs s).1
    tests true o h hc ho =
        inr (
          λ w. cc (w.connected),
          refuses connection_closed [] (unfold write_frames in ground arith),
        )
    tests false true h hc ho =
        inr
          (λ w. cc (w.open_state), refuses channel_closed [] (unfold write_frames in ground arith))
    tests false false h hc ho =
        let w : CanWrite s = record { exceptions = h; connected = hc; open_state = ho } in
        inl (w, write_frames-open fs s w)

    queued :
        (q : List Exception)
        → s.exceptions ≡ q
        → CanWrite s × (write_frames fs s ≡ (return tt, wrote fs s))
          ⊎ ¬ CanWrite s × Refused (write_frames fs s).0 s (write_frames fs s).1
    queued [] h = tests (is_closed s.connection_state) (is_closed s.state) h refl refl
    queued (e ∷ rest) h =
        inr (λ w. cc (w.exceptions), refuses e rest (unfold write_frames in ground arith))
