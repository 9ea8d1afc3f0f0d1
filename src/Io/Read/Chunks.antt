-- ===== src/Io/Read/Chunks.antt =====
-- How the received bytes are cut into pieces does not matter to IO.on_read (rabbitpy/io.py).
use rabbitpy.Prelude.{
  ℕ, zero, suc, ◌+◌, ◌<◌, ◌≡◌, refl, sym, inl, inr, List, ◌++◌, arith, length, length-append,
  length-drop, append_assoc,
}
use rabbitpy.Action.{Action, return}
use rabbitpy.Io.Read.{Unmarshalled, Io, round, on_read_loop, on_read, append_data}
use rabbitpy.Io.Read.Rounds.{
  Decodes, Same, drop-append, list_cases, unmarshal_cases, round-Fails, round-Yields,
}

module _ {F C : Type 0} (unmarshal : List ℕ → Unmarshalled F) (on_frame : F → Action C Unit)
    (d : Decodes unmarshal) where
  -- Enough fuel is all that the loop needs of its fuel, and the counter plays no part in it.
  loop_agree :
      (f g : ℕ) (s t : Io F C)
      → Same s t
      → length s.buffer < f
      → length t.buffer < g
      → ((on_read_loop unmarshal on_frame f s).0 ≡ (on_read_loop unmarshal on_frame g t).0)
        × Same (on_read_loop unmarshal on_frame f s).1 (on_read_loop unmarshal on_frame g t).1
  unfolding on_read_loop
  loop_agree zero g s t r hf hg = absurd (omega arith)
  loop_agree (suc f) zero s t r hf hg = absurd (omega arith)
  loop_agree (suc f) (suc g) s t r hf hg = elim (list_cases s.buffer) [
    | inl e ↦ ground (arith, r.buffer)
    | inr (x, xs, e) ↦ elim (unmarshal_cases unmarshal s.buffer) [
      | inl h ↦ ground (
        arith,
        round-Fails unmarshal on_frame s x xs e h,
        round-Fails unmarshal on_frame t x xs (rw (← r.buffer) e) (rw (← r.buffer) h),
        r.buffer,
      )
      | inr (n, c, m, h) ↦ ground (
        arith,
        round-Yields unmarshal on_frame s t x x xs xs n c m e (rw (← r.buffer) e) h
            (rw (← r.buffer) h) r.channel0 r.channels,
        d.consumes s.buffer n c m h,
        length-drop n s.buffer,
        loop_agree f g (round unmarshal on_frame s).1 (round unmarshal on_frame t).1,
      )
    ]
  ]

  -- A loop that returned on the front part of a buffer has done the first rounds on the whole.
  loop_append :
      (f g h : ℕ) (s t u : Io F C) (w : List ℕ)
      → (on_read_loop unmarshal on_frame f s).0 ≡ return tt
      → t.buffer ≡ s.buffer ++ w
      → s.channel0 ≡ t.channel0
      → s.channels ≡ t.channels
      → u.buffer ≡ (on_read_loop unmarshal on_frame f s).1.buffer ++ w
      → (on_read_loop unmarshal on_frame f s).1.channel0 ≡ u.channel0
      → (on_read_loop unmarshal on_frame f s).1.channels ≡ u.channels
      → length t.buffer < g
      → length u.buffer < h
      → ((on_read_loop unmarshal on_frame g t).0 ≡ (on_read_loop unmarshal on_frame h u).0)
        × Same (on_read_loop unmarshal on_frame g t).1 (on_read_loop unmarshal on_frame h u).1
  unfolding on_read_loop
  loop_append zero g h s t u w r eb e0 ec ub u0 uc lg lh = cc
  loop_append (suc f) zero h s t u w r eb e0 ec ub u0 uc lg lh = absurd (omega arith)
  loop_append (suc f) (suc g) h s t u w r eb e0 ec ub u0 uc lg lh = elim (list_cases s.buffer) [
    | inl e ↦
        loop_agree (suc g) h t u
          (record { buffer = ground arith; channel0 = ground arith; channels = ground arith }) lg lh
    | inr (x, xs, e) ↦ elim (unmarshal_cases unmarshal s.buffer) [
      | inl k ↦
          loop_agree (suc g) h t u
            (record {
              buffer = ground (arith, round-Fails unmarshal on_frame s x xs e k);
              channel0 = ground (arith, round-Fails unmarshal on_frame s x xs e k);
              channels = ground (arith, round-Fails unmarshal on_frame s x xs e k);
            })
            lg lh
      | inr (n, c, m, k) ↦ ground (
        arith,
        d.consumes s.buffer n c m k,
        length-drop n t.buffer,
        length-append s.buffer w,
        drop-append n s.buffer w,
        round-Yields unmarshal on_frame s t x x xs (xs ++ w) n c m e (rw (eb, e)) k
            (rw eb (d.stable s.buffer w n c m k)) e0 ec,
        loop_append f g h (round unmarshal on_frame s).1 (round unmarshal on_frame t).1 u w,
      )
    ]
  ]

-- Feeding the reader two pieces of input is feeding it their concatenation: if the first piece was
-- read without an exception, the outcome, the remaining bytes, the queues of the channels and the
-- state of channel 0 agree, however the bytes were cut and whatever the frames are.
pub on_read-append :
    {F C : Type 0} (unmarshal : List ℕ → Unmarshalled F) (on_frame : F → Action C Unit)
    → Decodes unmarshal
    → (xs ys : List ℕ) (s : Io F C) → (on_read unmarshal on_frame xs s).0 ≡ return tt
    → ((on_read unmarshal on_frame (xs ++ ys) s).0
        ≡ (on_read unmarshal on_frame ys (on_read unmarshal on_frame xs s).1).0)
      × Same
          (on_read unmarshal on_frame (xs ++ ys) s).1
          (on_read unmarshal on_frame ys (on_read unmarshal on_frame xs s).1).1
unfolding on_read
on_read-append unmarshal on_frame d xs ys s r =
    let first = on_read_loop unmarshal on_frame (length (s.buffer ++ xs) + 1) (append_data xs s) in
    loop_append unmarshal on_frame d (length (s.buffer ++ xs) + 1)
      (length (s.buffer ++ (xs ++ ys)) + 1) (length (first.1.buffer ++ ys) + 1) (append_data xs s)
      (append_data (xs ++ ys) s) (append_data ys first.1) ys r (sym (append_assoc s.buffer xs ys))
      refl refl refl refl refl (omega arith) (omega arith)
