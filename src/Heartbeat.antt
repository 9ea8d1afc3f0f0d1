-- ===== src/Heartbeat.antt =====
-- rabbitpy/heartbeat.py, with `send_heartbeat` of rabbitpy/channel0.py: the timer that keeps a
-- connection alive. The number of bytes that the IO thread has written so far is `bytes_written`;
-- the interval is a whole number of half seconds, half of the one that is asked for in seconds. An
-- armed timer is `timer`. The lock is left out, since one thread at a time runs the timer.
pub mod Beats
mod Tests
use rabbitpy.Prelude.{ℕ, ◌+◌, ◌-◌, ◌==◌, if◌then◌else◌, Bool, true, false, List, [], ◌∷◌}
use rabbitpy.Action.{Action, Outcome, return, pure, modify, when, zoom, ◌>>=◌, ◌>>◌}
use rabbitpy.Frame.{Frame, FrameClass}
use rabbitpy.Channel.{Channel, write_frame}

pub record Heartbeat : Type 0 where
  pub channel0 : Channel
  pub bytes_written : ℕ
  pub interval : ℕ
  pub last_written : ℕ
  pub timer : Bool

-- `Heartbeat(io, channel0, interval)`
pub heartbeat : Channel → (bytes_written interval : ℕ) → Heartbeat
heartbeat channel0 bytes_written interval = record {
  channel0 = channel0;
  bytes_written = bytes_written;
  interval = interval;
  last_written = bytes_written;
  timer = false;
}

-- Channel0.send_heartbeat
send_heartbeat : Action Heartbeat Unit
send_heartbeat =
    zoom (λ s. s.channel0) (λ c s. record s { channel0 = c })
      (write_frame (Frame.bare FrameClass.heartbeat))

start_timer : Action Heartbeat Unit
start_timer = modify (λ s. record s { timer = true })

pub start : Action Heartbeat Unit
unfolding start_timer
start s = if s.interval == 0 then (return tt, s) else start_timer s

pub stop : Action Heartbeat Unit
stop = modify (λ s. record s { timer = false })

-- `_maybe_send`. The number of bytes only grows, so that the difference is 0 where it is equal.
pub maybe_send : Action Heartbeat Unit
unfolding send_heartbeat start_timer
maybe_send =
    (λ s. when (s.bytes_written - s.last_written == 0) send_heartbeat s)
    >> modify (λ s. record s { last_written = s.bytes_written })
    >> start_timer

-- One period of the timer, in which the IO thread writes this many bytes.
period : ℕ → Action Heartbeat Unit
unfolding maybe_send
period written s =
    let r : Heartbeat = record s { bytes_written = s.bytes_written + written } in
    if r.timer then maybe_send r else (return tt, r)

-- A run of the timer.
unfoldable pub periods : List ℕ → Action Heartbeat Unit
unfolding period
periods [] = pure tt
periods (written ∷ later) = period written >> periods later
