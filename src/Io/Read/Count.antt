-- ===== src/Io/Read/Count.antt =====
-- The counter behind IO.bytes_received (rabbitpy/io.py).
use rabbitpy.Prelude.{
  ℕ, zero, suc, ◌+◌, ◌<◌, ◌≡◌, refl, ap, inl, inr, List, [], ◌∷◌, ◌++◌, arith, drop, length,
}
use rabbitpy.Action.{Action}
use rabbitpy.Io.Read.{Unmarshalled, unmarshalled, Io, round, on_read_loop, on_read, append_data}
use rabbitpy.Io.Read.Rounds.{Decodes, Yields, list_cases}

drop-length : {A : Type 0} (v : List A) → drop (length v) v ≡ []
drop-length [] = refl
drop-length (x ∷ v) = drop-length v

module _ {F C : Type 0} (unmarshal : List ℕ → Unmarshalled F) (on_frame : F → Action C Unit) where
  -- A round that takes the whole buffer leaves it empty and counts two.
  round_counts :
      (s : Io F C) (n c : ℕ) (m : F) (x : ℕ) (xs : List ℕ)
      → s.buffer ≡ x ∷ xs
      → Yields unmarshal s.buffer n c m
      → ((round unmarshal on_frame s).1.bytes_read ≡ s.bytes_read + 2)
        × ((round unmarshal on_frame s).1.buffer ≡ drop n s.buffer)
  unfolding round
  round_counts s n zero m x xs e h = ground arith
  round_counts s n (suc c) m x xs e h = ground arith

  loop_counts :
      (f : ℕ) (s : Io F C) (c : ℕ) (m : F) (x : ℕ) (xs : List ℕ)
      → s.buffer ≡ x ∷ xs
      → Yields unmarshal s.buffer (length s.buffer) c m
      → 1 < f
      → (on_read_loop unmarshal on_frame f s).1.bytes_read ≡ s.bytes_read + 2
  unfolding on_read_loop
  loop_counts zero s c m x xs e h k = absurd (omega arith)
  loop_counts (suc zero) s c m x xs e h k = absurd (omega arith)
  loop_counts (suc (suc f)) s c m x xs e h k =
      ground (arith, round_counts s (length s.buffer) c m x xs e h, drop-length s.buffer)

-- Data that completes exactly one frame adds two to the counter of received bytes, however many
-- bytes the frame has.
pub bytes_read-on_read :
    {F C : Type 0} (unmarshal : List ℕ → Unmarshalled F) (on_frame : F → Action C Unit)
    → Decodes unmarshal
    → (xs : List ℕ) (s : Io F C) (c : ℕ) (m : F)
    → unmarshal (s.buffer ++ xs) ≡ unmarshalled (length (s.buffer ++ xs)) c m
    → (on_read unmarshal on_frame xs s).1.bytes_read ≡ s.bytes_read + 2
unfolding on_read
bytes_read-on_read unmarshal on_frame d xs s c m h = elim (list_cases (s.buffer ++ xs)) [
  | inl e ↦ ground (arith, d.consumes (s.buffer ++ xs) (length (s.buffer ++ xs)) c m h)
  | inr (y, ys, e) ↦
      loop_counts unmarshal on_frame (length (s.buffer ++ xs) + 1) (append_data xs s) c m y ys e h
        (omega (arith, ap (length {A = ℕ}) e))
]
