-- ===== src/Io/Read/Drain.antt =====
-- The loop of IO.on_read (rabbitpy/io.py) ends, and leaves no whole frame behind.
use rabbitpy.Prelude.{
  ℕ, zero, suc, ◌+◌, ◌<◌, ◌≡◌, ◌≢◌, refl, ◌⊎◌, inl, inr, List, [], ◌++◌, arith, length, length-drop,
}
use rabbitpy.Action.{Action, Outcome, return, raise, blocked, no_fuel}
use rabbitpy.Io.Read.{Unmarshalled, Io, round, on_read_loop, on_read, append_data}
use rabbitpy.Io.Read.Rounds.{
  Decodes, list_cases, Fails, unmarshal_cases, round-Fails, round-Yields, round_total,
}

module _ {F : Type 0} (unmarshal : List ℕ → Unmarshalled F) where
  -- Nothing is left, or what is left is not a whole frame.
  abbrev pub Drained : List ℕ → Type 0
  Drained v = (v ≡ []) ⊎ Fails unmarshal v

  -- How the loop may end: a raise leaves any bytes, and a return leaves no whole frame.
  abbrev pub Ends : Outcome (Unit {0}) → List ℕ → Type 0
  Ends (return _) rest = Drained rest
  Ends no_fuel rest = ⊥
  Ends _ rest = Unit

  Ends-intro :
      (o : Outcome (Unit {0})) (v : List ℕ) → o ≢ no_fuel → (o ≡ return tt → Drained v) → Ends o v
  Ends-intro (return a) v h k = k refl
  Ends-intro (raise e) v h k = tt
  Ends-intro blocked v h k = tt
  Ends-intro no_fuel v h k = absurd (h refl)

module _ {F C : Type 0} (unmarshal : List ℕ → Unmarshalled F) (on_frame : F → Action C Unit)
    (d : Decodes unmarshal) where
  loop_drains :
      (f : ℕ) (s : Io F C)
      → ((m : F) (c : C) → (on_frame m c).0 ≢ no_fuel)
      → length s.buffer < f
      → ((on_read_loop unmarshal on_frame f s).0 ≢ no_fuel)
        × ((on_read_loop unmarshal on_frame f s).0 ≡ return tt
            → Drained unmarshal (on_read_loop unmarshal on_frame f s).1.buffer)
  unfolding on_read_loop
  loop_drains zero s q h = absurd (omega arith)
  loop_drains (suc f) s q h = elim (list_cases s.buffer) [
    | inl e ↦ (ground arith, λ r. inl (ground arith))
    | inr (x, xs, e) ↦ elim (unmarshal_cases unmarshal s.buffer) [
      | inl k ↦ (
        ground (arith, round-Fails unmarshal on_frame s x xs e k),
        λ r. inr (ground (arith, round-Fails unmarshal on_frame s x xs e k)),
      )
      | inr (n, c, m, k) ↦ ground (
        arith,
        d.consumes s.buffer n c m k,
        length-drop n s.buffer,
        round_total unmarshal on_frame s x xs n c m s.channel0 e k refl q,
        round-Yields unmarshal on_frame s s x x xs xs n c m e e k k refl refl,
        loop_drains f (round unmarshal on_frame s).1 q,
      )
    ]
  ]

-- The reading loop ends on its own: with a decoder that takes at least one byte for a frame, and a
-- handler of channel 0 that ends, `on_read` never runs out of fuel, and when it returns, the bytes
-- that are left are none or do not begin with a whole frame.
pub on_read_drains :
    {F C : Type 0} (unmarshal : List ℕ → Unmarshalled F) (on_frame : F → Action C Unit)
    → Decodes unmarshal
    → ((m : F) (c : C) → (on_frame m c).0 ≢ no_fuel)
    → (xs : List ℕ) (s : Io F C)
    → Ends unmarshal (on_read unmarshal on_frame xs s).0 (on_read unmarshal on_frame xs s).1.buffer
unfolding on_read
on_read_drains unmarshal on_frame d q xs s =
    let (ends, drained) =
      loop_drains unmarshal on_frame d (length (s.buffer ++ xs) + 1) (append_data xs s) q
        (omega arith) in
    Ends-intro unmarshal _ _ ends drained
