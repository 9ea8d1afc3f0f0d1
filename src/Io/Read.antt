-- ===== src/Io/Read.antt =====
-- rabbitpy/io.py, IO.on_read and what it calls: bytes are put into a buffer, frames are cut from
-- its front, and each goes to channel 0 or to the read queue of its channel.
--
-- pamqp's `frame.unmarshal` is the parameter `unmarshal`; Channel0.on_frame and its state are the
-- parameters `on_frame` and `C`. A byte is a number. The loop takes fuel; a round that goes on has
-- taken at least one byte, so that more fuel than the buffer has bytes is enough.
mod Rounds
pub mod Chunks
pub mod Drain
pub mod Count
mod Tests
use rabbitpy.Prelude.{
  ℕ, zero, suc, ◌+◌, ◌==◌, if◌then◌else◌, Bool, true, false, Option, none, some, List, [], ◌∷◌,
  ◌++◌, drop, length, is_empty,
}
use rabbitpy.Exceptions.{key_error}
use rabbitpy.Action.{Action, Outcome, return, raise, blocked, no_fuel, pure, ◌>>=◌, ◌>>◌}

-- What `frame.unmarshal` does with the buffer: a frame of so many bytes, or one of two exceptions.
pub data Unmarshalled (F : Type 0) : Type 0 where
  unmarshalled : (byte_count channel_id : ℕ) → F → Unmarshalled F
  unmarshaling_exception frame_error : Unmarshalled F

-- Channel 0 has no read queue, and stands apart from the other channels.
pub record Io (F C : Type 0) : Type 0 where
  pub buffer : List ℕ
  pub bytes_read : ℕ
  pub channel0 : Option C
  pub channels : List (ℕ × List F)

-- `self._channels[channel_id][1].put(frame_value)`
put : {F : Type 0} → ℕ → F → List (ℕ × List F) → Option (List (ℕ × List F))
put channel_id frame_value [] = none
put channel_id frame_value ((k, queue) ∷ rest) =
    if k == channel_id
    then some ((k, queue ++ frame_value ∷ []) ∷ rest)
    else elim (put channel_id frame_value rest) [ none ↦ none | some m ↦ some ((k, queue) ∷ m) ]

cut : {F : Type 0} → List ℕ → Unmarshalled F → List ℕ × Option (ℕ × F)
cut value (unmarshalled byte_count channel_id frame_in) =
    (drop byte_count value, some (channel_id, frame_in))
cut value _ = (value, none)

-- The remaining bytes, and the channel id and frame, or None for both.
get_frame_from_str : {F : Type 0} → (List ℕ → Unmarshalled F) → List ℕ → List ℕ × Option (ℕ × F)
unfolding cut
get_frame_from_str unmarshal value =
    if is_empty value then (value, none) else cut value (unmarshal value)

module _ {F C : Type 0} where
  add_frame_to_read_queue : ℕ → F → Action (Io F C) Unit
  unfolding put
  add_frame_to_read_queue channel_id frame_value s = elim (put channel_id frame_value s.channels) [
    | none ↦ (raise (key_error "channel_id"), s)
    | some m ↦ (return tt, record s { channels = m })
  ]

  -- `self._channels[0][0].on_frame(value[1])`
  channel0_on_frame : (F → Action C Unit) → F → Action (Io F C) Unit
  channel0_on_frame on_frame value s = elim s.channel0 [
    | none ↦ (raise (key_error "0"), s)
    | some c ↦ ((on_frame value c).0, record s { channel0 = some (on_frame value c).1 })
  ]

  read_frame : (List ℕ → Unmarshalled F) → Action (Io F C) (Option (ℕ × F))
  unfolding get_frame_from_str
  read_frame unmarshal s =
      let (rest, value) = get_frame_from_str unmarshal s.buffer in
      (return value, record s { buffer = rest })

  -- `self._bytes_read += len(value)`, where `value` is a pair
  count_value : Action (Io F C) Unit
  count_value s = (return tt, record s { bytes_read = s.bytes_read + 2 })

  -- One round after the read: false is the `break`.
  dispatch : (F → Action C Unit) → Option (ℕ × F) → Action (Io F C) Bool
  unfolding channel0_on_frame add_frame_to_read_queue
  dispatch on_frame none s =
      if is_empty s.buffer then (raise (key_error "None"), s) else (return false, s)
  dispatch on_frame (some (zero, value)) s = (channel0_on_frame on_frame value >> pure true) s
  dispatch on_frame (some (suc c, value)) s = (add_frame_to_read_queue (suc c) value >> pure true) s

  append_data : List ℕ → Io F C → Io F C
  append_data received s = record s { buffer = s.buffer ++ received }

module _ {F C : Type 0} (unmarshal : List ℕ → Unmarshalled F) (on_frame : F → Action C Unit) where
  pub round : Action (Io F C) Bool
  unfolding read_frame count_value dispatch
  round = do value ← read_frame unmarshal; count_value; dispatch on_frame value

  -- while self._buffer
  on_read_loop : ℕ → Action (Io F C) Unit
  on_read_loop zero s = (no_fuel, s)
  on_read_loop (suc fuel) s = elim s.buffer [
    | [] ↦ (return tt, s)
    | _ ∷ _ ↦ elim (round s).0 [
      | return true ↦ on_read_loop fuel (round s).1
      | return false ↦ (return tt, (round s).1)
      | raise e ↦ (raise e, (round s).1)
      | blocked ↦ (blocked, (round s).1)
      | no_fuel ↦ (no_fuel, (round s).1)
    ]
  ]

  pub on_read : List ℕ → Action (Io F C) Unit
  unfolding append_data on_read_loop round
  on_read received s = on_read_loop (length (s.buffer ++ received) + 1) (append_data received s)
