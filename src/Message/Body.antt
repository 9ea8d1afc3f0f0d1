-- ===== src/Message/Body.antt =====
-- rabbitpy/message.py, `Message.publish`: the cutting of the payload into body frames.
pub mod Pieces
use rabbitpy.Prelude.{
  ℕ, zero, suc, ◌+◌, ◌-◌, ◌*◌, ◌/◌, ◌≤◌, ◌<◌, ◌≡◌, refl, sym, ◌∙◌, ap, Bool, true, false, ltb,
  if◌then◌else◌, List, [], ◌∷◌, ◌++◌, map, take, drop, length, arith, All, min, length-take,
  length-drop, take-append-drop, append-nil, Bool-cases, inl, inr,
}

-- `payload[start:end]`
abbrev pub slice : List ℕ → ℕ → ℕ → List ℕ
slice payload start end = take (end - start) (drop start payload)

-- `int(math.ceil(len(payload) / float(maximum_frame_size)))`, which the division of floats gets
-- right for payloads below 2 ^ 53 bytes
unfoldable pub piece_count : ℕ → ℕ → ℕ
piece_count size maximum = (size + maximum - 1) / maximum

-- `for offset in range(offset, offset + pieces)`
unfoldable pub pieces_from : ℕ → ℕ → ℕ → List ℕ → List (List ℕ)
pieces_from zero offset maximum payload = []
pieces_from (suc pieces) offset maximum payload =
    let start = maximum * offset in
    let end = start + maximum in
    let end' = if ltb (length payload) end then length payload else end in
    slice payload start end' ∷ pieces_from pieces (offset + 1) maximum payload

unfoldable pub body_pieces : ℕ → List ℕ → List (List ℕ)
unfolding piece_count pieces_from
body_pieces maximum payload = pieces_from (piece_count (length payload) maximum) 0 maximum payload

abbrev pub concat : List (List ℕ) → List ℕ
concat [] = []
concat (x ∷ xs) = x ++ concat xs
