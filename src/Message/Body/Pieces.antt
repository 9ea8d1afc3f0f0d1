-- ===== src/Message/Body/Pieces.antt =====
-- The body frames of a published message (rabbitpy/message.py) hold its payload.
use Prim.Native.Nat.add
use rabbitpy.Prelude.{
  ℕ, zero, suc, ◌+◌, ◌-◌, ◌*◌, ◌/◌, ◌≤◌, ◌<◌, ◌≡◌, refl, sym, ◌∙◌, ap, ltb, if◌then◌else◌, List, [],
  ◌∷◌, ◌++◌, take, drop, length, arith, All, min, length-take, length-drop, take-append-drop,
  append-nil, Bool-cases, inl, inr,
}
use rabbitpy.Message.Body.{slice, piece_count, pieces_from, body_pieces, concat}

drop_all : (n : ℕ) (v : List ℕ) → length v ≤ n → drop n v ≡ []
drop_all zero [] h = refl
drop_all zero (x ∷ v) h = absurd (omega arith)
drop_all (suc n) [] h = refl
drop_all (suc n) (x ∷ v) h = drop_all n v (omega arith)

take_all : (n : ℕ) (v : List ℕ) → length v ≤ n → take n v ≡ v
take_all n v h = sym (append-nil (take n v)) ∙ rw (← drop_all n v h) (take-append-drop n v)

drop-nil : (n : ℕ) → ◌≡◌ {A = List ℕ} (drop n []) []
drop-nil zero = refl
drop-nil (suc n) = refl

drop-drop : (a m : ℕ) (v : List ℕ) → drop m (drop a v) ≡ drop (a + m) v
drop-drop zero m v = rw (add.zero m)
drop-drop (suc a) m [] = drop-nil m ∙ sym (drop-nil (suc a + m))
drop-drop (suc a) m (x ∷ v) = rw (add.suc a m) (drop-drop a m v)

module _ (m : ℕ) (p : List ℕ) where
  -- The piece at `offset` is cut at the end of the payload.
  abbrev piece : ℕ → List ℕ
  piece o = slice p (m * o) (if ltb (length p) (m * o + m) then length p else m * o + m)

  piece-append-drop : (o : ℕ) → piece o ++ drop (m * (o + 1)) p ≡ drop (m * o) p
  piece-append-drop o = elim (Bool-cases (ltb (length p) (m * o + m))) [
    | inl h ↦ rw (
      h,
      take_all (length p - m * o) (drop (m * o) p) (omega (arith, length-drop (m * o) p)),
      drop_all (m * (o + 1)) p (ground arith),
      append-nil (drop (m * o) p),
    )
    | inr h ↦
        let e : m * o + m - m * o ≡ m = omega arith in
        let f : m * (o + 1) ≡ m * o + m = omega arith in
        rw (h, e, f, ← drop-drop (m * o) m p) (take-append-drop m (drop (m * o) p))
  ]

  length-piece : (o : ℕ) → length (piece o) ≡ min m (length p - m * o)
  length-piece o = elim (Bool-cases (ltb (length p) (m * o + m))) [
    | inl h ↦
        rw h
          (ground (arith, length-take (length p - m * o) (drop (m * o) p), length-drop (m * o) p))
    | inr h ↦
        rw h
          (ground (arith, length-take (m * o + m - m * o) (drop (m * o) p), length-drop (m * o) p))
  ]

  concat-pieces_from :
      (k o : ℕ) → length p ≤ m * (o + k) → concat (pieces_from k o m p) ≡ drop (m * o) p
  unfolding pieces_from
  concat-pieces_from zero o h = sym (drop_all (m * o) p (omega arith))
  concat-pieces_from (suc k) o h =
      ap (λ l. piece o ++ l) (concat-pieces_from k (o + 1) (omega arith)) ∙ piece-append-drop o

  length-pieces_from : (k o : ℕ) → length (pieces_from k o m p) ≡ k
  unfolding pieces_from
  length-pieces_from zero o = refl
  length-pieces_from (suc k) o = ap suc (length-pieces_from k (o + 1))

  abbrev pub IsPiece : List ℕ → Type 0
  IsPiece v = (0 < length v) × (length v ≤ m)

  pieces_from-IsPiece :
      (k o : ℕ) → 0 < m → m * (o + k) < length p + m → All IsPiece (pieces_from k o m p)
  unfolding pieces_from
  pieces_from-IsPiece zero o h b = tt
  pieces_from-IsPiece (suc k) o h b =
      let size : length (piece o) ≡ min m (length p - m * o) = length-piece o in
      let inside : m * o < length p = omega arith in
      (
        (rw size (omega arith), rw size (omega arith)),
        pieces_from-IsPiece k (o + 1) h (omega arith),
      )

-- The body frames of a payload hold it: with a maximum of at least one byte, their contents joined
-- in order are the payload, each has at least one byte and at most the maximum, and there are as
-- many as the length over the maximum, rounded up.
pub body_pieces_lem :
    (maximum : ℕ) (payload : List ℕ)
    → 0 < maximum
    → (concat (body_pieces maximum payload) ≡ payload)
      × All (IsPiece maximum payload) (body_pieces maximum payload)
      × (length payload ≤ maximum * length (body_pieces maximum payload))
      × (maximum * length (body_pieces maximum payload) < length payload + maximum)
unfolding body_pieces piece_count
body_pieces_lem maximum payload h =
    let count : ℕ = (length payload + maximum - 1) / maximum in
    let enough : length payload ≤ maximum * count = omega arith in
    let least : maximum * count < length payload + maximum = omega arith in
    let start : maximum * 0 ≡ 0 = omega arith in
    let size = length-pieces_from maximum payload count 0 in
    (
      concat-pieces_from maximum payload count 0 (omega arith) ∙ rw start,
      pieces_from-IsPiece maximum payload count 0 h (omega arith),
      rw size enough,
      rw size least,
    )
