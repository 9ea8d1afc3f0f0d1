-- ===== src/Heartbeat/Beats.antt =====
-- The heartbeats that a timer sends (rabbitpy/heartbeat.py).
use rabbitpy.Prelude.{
  ℕ, zero, suc, ◌+◌, ◌-◌, ◌==◌, ◌≡◌, ◌≢◌, refl, sym, ◌∙◌, true, false, List, [], ◌∷◌, ◌++◌, map,
  arith, append_assoc, append-nil, map-append,
}
use rabbitpy.Action.{return, ◌>>◌}
use rabbitpy.Frame.{Frame, FrameClass}
use rabbitpy.Channel.{Channel}
use rabbitpy.Channel.Writes.{CanWrite, wrote, write_frame-open}
use rabbitpy.Heartbeat.{
  Heartbeat, heartbeat, start, maybe_send, send_heartbeat, start_timer, period, periods,
}

-- One heartbeat for each period in which nothing was written.
abbrev pub beats : List ℕ → List Frame
beats [] = []
beats (zero ∷ later) = Frame.bare FrameClass.heartbeat ∷ beats later
beats (suc n ∷ later) = beats later

-- The timer is armed, and nothing was written since it last looked.
pub record Armed (s : Heartbeat) : Type 0 where
  pub writes : CanWrite s.channel0
  pub timer : s.timer ≡ true
  pub last_written : s.last_written ≡ s.bytes_written

-- What a run leaves: the timer still armed, and these frames on the queue.
pub record Beaten (frames : List Frame) (s t : Heartbeat) : Type 0 where
  pub armed : Armed t
  pub channel_id : t.channel0.channel_id ≡ s.channel0.channel_id
  pub write_queue :
      t.channel0.write_queue
      ≡ s.channel0.write_queue ++ map (λ f. (s.channel0.channel_id, f)) frames

Beaten-trans :
    (f g : List Frame) (s t u : Heartbeat) → Beaten f s t → Beaten g t u → Beaten (f ++ g) s u
Beaten-trans f g s t u b c = record {
  armed = c.armed;
  channel_id = c.channel_id ∙ b.channel_id;
  write_queue =
      let numbered : Frame → ℕ × Frame = λ f. (s.channel0.channel_id, f) in
      c.write_queue
      ∙ rw (b.channel_id, b.write_queue, map-append numbered f g)
          (append_assoc s.channel0.write_queue (map numbered f) (map numbered g));
}

-- The state after a period in which nothing was written, and after another.
abbrev silent : Heartbeat → Heartbeat
silent s = record s {
  channel0 = wrote (Frame.bare FrameClass.heartbeat ∷ []) s.channel0;
  bytes_written = s.bytes_written + 0;
  last_written = s.bytes_written + 0;
  timer = true;
}

abbrev busy : ℕ → Heartbeat → Heartbeat
busy written s = record s {
  bytes_written = s.bytes_written + written;
  last_written = s.bytes_written + written;
  timer = true;
}

period-silent : (s : Heartbeat) → Armed s → period 0 s ≡ (return tt, silent s)
unfolding period maybe_send send_heartbeat start_timer
period-silent s a =
    let unchanged : (s.bytes_written + 0 - s.last_written == 0) ≡ true =
      ground (arith, a.last_written) in
    rw (a.timer, unchanged, write_frame-open (Frame.bare FrameClass.heartbeat) s.channel0 a.writes)
      refl

period-busy : (n : ℕ) (s : Heartbeat) → Armed s → period (suc n) s ≡ (return tt, busy (suc n) s)
unfolding period maybe_send send_heartbeat start_timer
period-busy n s a =
    let more : (s.bytes_written + suc n - s.last_written == 0) ≡ false =
      ground (arith, a.last_written) in
    rw (a.timer, more) refl

periods-Beaten :
    (written : List ℕ) (s : Heartbeat)
    → Armed s
    → ((periods written s).0 ≡ return tt) × Beaten (beats written) s (periods written s).1
unfolding periods
periods-Beaten [] s a =
    (refl, record { armed = a; channel_id = refl; write_queue = sym (append-nil _) })
periods-Beaten (zero ∷ later) s a =
    let armed : Armed (silent s) = record {
      writes = record {
        exceptions = a.writes.exceptions;
        connected = a.writes.connected;
        open_state = a.writes.open_state;
      };
      timer = refl;
      last_written = refl;
    } in
    let (r, b) = periods-Beaten later (silent s) armed in
    rw (period-silent s a) (
      r,
      Beaten-trans (Frame.bare FrameClass.heartbeat ∷ []) (beats later) s (silent s) _
          (record { armed = armed; channel_id = refl; write_queue = refl }) b,
    )
periods-Beaten (suc n ∷ later) s a =
    let armed : Armed (busy (suc n) s) = record {
      writes = a.writes;
      timer = refl;
      last_written = refl;
    } in
    let (r, b) = periods-Beaten later (busy (suc n) s) armed in
    rw (period-busy n s a) (
      r,
      Beaten-trans [] (beats later) s (busy (suc n) s) _
          (record { armed = armed; channel_id = refl; write_queue = sym (append-nil _) }) b,
    )

-- A heartbeat checker with an interval, on a channel 0 that can write: however many bytes the IO
-- thread writes in the periods, one heartbeat is queued for each period without a byte and none for
-- any other, and the timer is armed again after each.
pub periods-beats :
    (channel0 : Channel) (bytes_written interval : ℕ) (written : List ℕ)
    → CanWrite channel0
    → interval ≢ 0
    → let r = (start >> periods written) (heartbeat channel0 bytes_written interval) in
      (r.0 ≡ return tt)
      × (r.1.timer ≡ true)
      × (r.1.channel0.write_queue
          ≡ channel0.write_queue ++ map (λ f. (channel0.channel_id, f)) (beats written))
unfolding start start_timer heartbeat
periods-beats channel0 bytes_written interval written w n =
    let s : Heartbeat = record (heartbeat channel0 bytes_written interval) { timer = true } in
    let on : (interval == 0) ≡ false = ground (arith, n) in
    let (r, b) =
      periods-Beaten written s (record { writes = w; timer = refl; last_written = refl }) in
    rw on (r, b.armed.timer, b.write_queue)
