-- ===== src/Channel/Api/Commands.antt =====
-- Commands of the classes of the package on their channel (ChannelWriter of rabbitpy/base.py), each
-- answered by the server.
use rabbitpy.Prelude.{ℕ, suc, ◌≡◌, true, false, some, List, [], ◌∷◌, arith}
use rabbitpy.Action.{return}
use rabbitpy.Frame.{Frame, Pamqp, class_of}
use rabbitpy.Channel.{Channel, Tick}
use rabbitpy.Channel.Writes.{wrote}
use rabbitpy.Channel.Wait.{validate_frame_type}
use rabbitpy.Channel.Wait.Order.{IsCalm, found_in, is_request}
use rabbitpy.Channel.Wait.Answer.{arrives, answers, rpc-answered}
use rabbitpy.Channel.Api.{channel_rpc}

-- An answer to one of these frames.
pub record IsAnswer (pamqp : Pamqp) (frame answer : Frame) : Type 0 where
  pub waits : pamqp.synchronous (class_of frame) ≡ true
  pub plain : is_request answer ≡ false
  pub fits : validate_frame_type pamqp answer (answers pamqp frame) ≡ true

-- The channel behind an answered command.
abbrev pub answered : Pamqp → Frame → List Tick → Channel → Channel
answered pamqp frame later c = found_in pamqp (wrote (frame ∷ []) c) [] later

pub answered-IsCalm :
    (pamqp : Pamqp) (frame : Frame) (later : List Tick) (c : Channel)
    → IsCalm c
    → IsCalm (answered pamqp frame later c)
answered-IsCalm pamqp frame later c h = record {
  exceptions = h.exceptions;
  interrupt = h.interrupt;
  open_state = h.open_state;
  connected = h.connected;
}

pub channel_rpc-answered :
    (pamqp : Pamqp) (rounds : ℕ) (frame : Frame) (c : Channel) (answer : Frame) (later : List Tick)
    → IsCalm c
    → c.read_queue ≡ []
    → c.schedule ≡ arrives (answer ∷ []) ∷ later
    → IsAnswer pamqp frame answer
    → channel_rpc pamqp (suc rounds) frame c ≡ (return (some answer), answered pamqp frame later c)
unfolding channel_rpc
channel_rpc-answered pamqp rounds frame c answer later h q t a = rw h.open_state (
    rpc-answered pamqp (suc rounds) frame c [] [] answer later h a.waits tt a.plain a.fits q t
      (omega arith))
