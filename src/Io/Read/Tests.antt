-- ===== src/Io/Read/Tests.antt =====
-- Runs of rabbitpy/io.py's reader with a small decoder: a frame is a channel number and one byte.

use rabbitpy.Prelude.{ℕ, ◌<◌, ◌≤◌, ◌≡◌, ◌≢◌, refl, some, List, [], ◌∷◌, ◌++◌, arith, length}
use rabbitpy.Exceptions.{key_error}
use rabbitpy.Action.{Action, return, raise, no_fuel}
use rabbitpy.Io.Read.{Unmarshalled, unmarshalled, unmarshaling_exception, Io, on_read}
use rabbitpy.Io.Read.Rounds.{Decodes, Same}
use rabbitpy.Io.Read.Chunks.{on_read-append}
use rabbitpy.Io.Read.Drain.{Ends, on_read_drains}

abbrev decode : List ℕ → Unmarshalled ℕ
decode [] = unmarshaling_exception
decode (c ∷ []) = unmarshaling_exception
decode (c ∷ v ∷ rest) = unmarshalled 2 c v

decode_consumes :
    (v : List ℕ) (n c : ℕ) (f : ℕ) → decode v ≡ unmarshalled n c f → (0 < n) × (n ≤ length v)
decode_consumes [] n c f e = cc
decode_consumes (a ∷ []) n c f e = cc
decode_consumes (a ∷ b ∷ v) n c f e = ground arith

decode_stable :
    (v w : List ℕ) (n c : ℕ) (f : ℕ)
    → decode v ≡ unmarshalled n c f
    → decode (v ++ w) ≡ unmarshalled n c f
decode_stable [] w n c f e = cc
decode_stable (a ∷ []) w n c f e = cc
decode_stable (a ∷ b ∷ v) w n c f e = e

decode-Decodes : Decodes decode
decode-Decodes = record { consumes = decode_consumes; stable = decode_stable }

-- Channel 0 keeps the frames that it was given.
abbrev keep : ℕ → Action (List ℕ) Unit
keep f c = (return tt, c ++ f ∷ [])

abbrev idle : Io ℕ (List ℕ)
idle = record { buffer = []; bytes_read = 0; channel0 = some []; channels = (1, []) ∷ (2, []) ∷ [] }

run_two_frames : on_read decode keep (0 ∷ 7 ∷ 2 ∷ 8 ∷ 1 ∷ []) idle ≡ (
  return tt,
  record {
    buffer = 1 ∷ [];
    bytes_read = 6;
    channel0 = some (7 ∷ []);
    channels = (1, []) ∷ (2, 8 ∷ []) ∷ [];
  },
)
unfolding on_read
run_two_frames = refl

run_unknown_channel : (on_read decode keep (3 ∷ 7 ∷ []) idle).0 ≡ raise (key_error "channel_id")
unfolding on_read
run_unknown_channel = refl

on_read-append_example :
    ((on_read decode keep (1 ∷ 7 ∷ 2 ∷ 8 ∷ []) idle).0
      ≡ (on_read decode keep (7 ∷ 2 ∷ 8 ∷ []) (on_read decode keep (1 ∷ []) idle).1).0)
    × Same
        (on_read decode keep (1 ∷ 7 ∷ 2 ∷ 8 ∷ []) idle).1
        (on_read decode keep (7 ∷ 2 ∷ 8 ∷ []) (on_read decode keep (1 ∷ []) idle).1).1
unfolding on_read
on_read-append_example =
    on_read-append decode keep decode-Decodes (1 ∷ []) (7 ∷ 2 ∷ 8 ∷ []) idle refl

on_read_drains_example :
    Ends decode
      (on_read decode keep (1 ∷ 7 ∷ 2 ∷ []) idle).0
      (on_read decode keep (1 ∷ 7 ∷ 2 ∷ []) idle).1.buffer
on_read_drains_example = on_read_drains decode keep decode-Decodes keep_ends (1 ∷ 7 ∷ 2 ∷ []) idle
  where
    keep_ends : (m : ℕ) (c : List ℕ) → (keep m c).0 ≢ no_fuel
    keep_ends m c e = cc
