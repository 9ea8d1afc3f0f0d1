-- ===== src/Channel/Wait/Cancels.antt =====
-- The frames that a wait adds to the shared write queue, among those of the other threads, and what
-- keeps this through a read (rabbitpy/base.py).
use mathlib.Core.Path.{subst}
use rabbitpy.Prelude.{
  ℕ, ◌≡◌, refl, sym, ◌∙◌, ap, Bool, true, false, not, ◌&&◌, String, Option, List, [], ◌∷◌, ◌++◌,
  map, arith, Bool-cases, inl, inr, append_assoc, map-append, All, All-append,
}
use rabbitpy.Action.{Action, Outcome, blocked, modify, when, ◌>>◌}
use rabbitpy.Action.Rules.{Keeps, Keeps-bind}
use rabbitpy.Stateful.{is_closing}
use rabbitpy.Frame.{Frame}
use rabbitpy.Channel.{
  Channel, Tick, check_for_exceptions, check_for_rpc_request, can_write, write_frame, put_frame,
  trigger_write,
}
use rabbitpy.Channel.Wait.{read_from_queue, interleave, timed_get, blocking_get_from, pop}

abbrev pub IsCancel : Frame → Type 0
IsCancel (Frame.cancel consumer_tag nowait) = Unit
IsCancel frame = ⊥

-- Two lists put together by steps that add one element of the first, or some of the second.
pub data Interleaving {A : Type 0} : List A → List A → List A → Type 0 where
  neither : Interleaving [] [] []
  one_own :
      (x : A) {own others both : List A}
      → Interleaving own others both
      → Interleaving (own ++ x ∷ []) others (both ++ x ∷ [])
  more_others :
      (more : List A) {own others both : List A}
      → Interleaving own others both
      → Interleaving own (others ++ more) (both ++ more)

-- The frames that the other threads write.
abbrev pub written_by : List Tick → List (ℕ × Frame)
written_by [] = []
written_by (t ∷ ticks) = t.written ++ written_by ticks

-- Since the write queue was `before` and the schedule `ticks`, the frames that were added to the
-- queue are Basic.Cancel frames of channel `id`, and between these what the other threads wrote in
-- the entries of the schedule that are past.
pub record Cancels (before : List (ℕ × Frame)) (id : ℕ) (ticks : List Tick) (s : Channel)
    : Type 0 where
  pub own : List Frame
  pub others : List (ℕ × Frame)
  pub added : List (ℕ × Frame)
  pub cancels : All IsCancel own
  pub mixed : Interleaving (map (λ f. (id, f)) own) others added
  pub past : others ++ written_by s.schedule ≡ written_by ticks
  pub appended : s.write_queue ≡ before ++ added
  pub same_id : s.channel_id ≡ id

module _ (before : List (ℕ × Frame)) (id : ℕ) (ticks : List Tick) where
  abbrev Ok : Channel → Type 0
  Ok s = Cancels before id ticks s

  pub Cancels-same :
      (s t : Channel)
      → t.write_queue ≡ s.write_queue
      → t.channel_id ≡ s.channel_id
      → t.schedule ≡ s.schedule
      → Ok s
      → Ok t
  Cancels-same s t q i e c = record {
    own = c.own;
    others = c.others;
    added = c.added;
    cancels = c.cancels;
    mixed = c.mixed;
    past = ap (λ l. c.others ++ written_by l) e ∙ c.past;
    appended = q ∙ c.appended;
    same_id = i ∙ c.same_id;
  }

  -- One entry of the schedule passes.
  interleave-Cancels :
      (t : Tick) (later : List Tick) (s : Channel)
      → s.schedule ≡ t ∷ later
      → Ok s
      → Ok (interleave t (record s { schedule = later }))
  unfolding interleave
  interleave-Cancels t later s e c = record {
    own = c.own;
    others = c.others ++ t.written;
    added = c.added ++ t.written;
    cancels = c.cancels;
    mixed = more_others t.written c.mixed;
    past =
        append_assoc c.others t.written (written_by later)
        ∙ sym (ap (λ l. c.others ++ written_by l) e)
        ∙ c.past;
    appended = ap (λ q. q ++ t.written) c.appended ∙ append_assoc before c.added t.written;
    same_id = c.same_id;
  }

  pub check_for_exceptions-Cancels : Keeps Ok check_for_exceptions
  unfolding check_for_exceptions
  check_for_exceptions-Cancels s c = Cancels-same s _ (ground arith) (ground arith) (ground arith) c

  can_write-Cancels : Keeps Ok can_write
  unfolding can_write
  can_write-Cancels s c = Cancels-same s _ (ground arith) (ground arith) (ground arith) c

  pub check_for_rpc_request-Cancels : (v : Frame) → Keeps Ok (check_for_rpc_request v)
  unfolding check_for_rpc_request
  check_for_rpc_request-Cancels v s c =
      Cancels-same s _ (ground arith) (ground arith) (ground arith) c

  when-Cancels : (b : Bool) (m : Action Channel Unit) → Keeps Ok m → Keeps Ok (when b m)
  when-Cancels true m k s c = k s c
  when-Cancels false m k s c = c

  put_frame-Cancels :
      (tag : String) (nowait : Bool)
      → Keeps Ok (modify (put_frame (Frame.cancel tag nowait)) >> trigger_write)
  unfolding put_frame trigger_write
  put_frame-Cancels tag nowait s c =
      let frame : Frame = Frame.cancel tag nowait in
      record {
        own = c.own ++ frame ∷ [];
        others = c.others;
        added = c.added ++ (id, frame) ∷ [];
        cancels = All-append IsCancel c.own (frame ∷ []) c.cancels (tt, tt);
        mixed =
            subst (λ l. Interleaving l c.others (c.added ++ (id, frame) ∷ []))
              (sym (map-append (λ f. (id, f)) c.own (frame ∷ []))) (one_own (id, frame) c.mixed);
        past = c.past;
        appended =
            ap (λ i. s.write_queue ++ (i, frame) ∷ []) c.same_id
            ∙ ap (λ q. q ++ (id, frame) ∷ []) c.appended
            ∙ append_assoc before c.added ((id, frame) ∷ []);
        same_id = c.same_id;
      }

  pub write_frame-cancels :
      (tag : String) (nowait : Bool) → Keeps Ok (write_frame (Frame.cancel tag nowait))
  unfolding write_frame
  write_frame-cancels tag nowait = Keeps-bind Ok can_write _ can_write-Cancels (λ b.
      when-Cancels b (modify (put_frame (Frame.cancel tag nowait)) >> trigger_write)
        (λ s c. put_frame-Cancels tag nowait s c))

  pop-Cancels : Keeps Ok pop
  unfolding pop
  pop-Cancels s c = Cancels-same s _ (ground arith) (ground arith) (ground arith) c

  timed_get-Cancels : Keeps Ok timed_get
  unfolding timed_get
  timed_get-Cancels s c = go s.schedule refl
    where
      go :
          (l : List Tick)
          → s.schedule ≡ l
          → let r : Outcome (Option Frame) × Channel = elim l [
            | [] ↦ (blocked, s)
            | t ∷ ticks ↦ pop (interleave t (record s { schedule = ticks }))
          ] in
            Ok r.1
      go [] e = c
      go (t ∷ later) e = pop-Cancels _ (interleave-Cancels t later s e c)

  blocking_get_from-Cancels :
      (later : List Tick) (s : Channel)
      → s.schedule ≡ later
      → Ok s
      → Ok (blocking_get_from later s).1
  unfolding blocking_get_from
  blocking_get_from-Cancels [] s e c = c
  blocking_get_from-Cancels (t ∷ later) s e c =
      let s' = interleave t (record s { schedule = later }) in
      go s'.read_queue (blocking_get_from-Cancels later s' refl (interleave-Cancels t later s e c))
    where
      go :
          (l : List Frame)
          → Ok (blocking_get_from later (interleave t (record s { schedule = later }))).1
          → let r : Outcome (Option Frame) × Channel = elim l [
            | [] ↦ blocking_get_from later (interleave t (record s { schedule = later }))
            | _ ∷ _ ↦ pop (interleave t (record s { schedule = later }))
          ] in
            Ok r.1
      go [] k = k
      go (v ∷ l) k = pop-Cancels _ (interleave-Cancels t later s e c)

  pub read_from_queue-Cancels : Keeps Ok read_from_queue
  unfolding read_from_queue
  read_from_queue-Cancels = Keeps-bind Ok can_write _ can_write-Cancels λ ready s c.
      elim (Bool-cases (ready && not (is_closing s.state) && s.blocking_read)) [
        | inl h ↦ rw h (blocking_get_from-Cancels s.schedule s refl c)
        | inr h ↦ rw h (timed_get-Cancels s c)
      ]
