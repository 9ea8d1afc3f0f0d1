-- ===== src/Io/Read/Rounds.antt =====
-- Single rounds of IO.on_read (rabbitpy/io.py), and what is assumed of the decoder.
use rabbitpy.Prelude.{
  ℕ, zero, suc, ◌+◌, ◌≤◌, ◌<◌, ◌≡◌, ◌≢◌, refl, ◌⊎◌, inl, inr, false, Option, none, some, List, [],
  ◌∷◌, ◌++◌, arith, drop, length,
}
use rabbitpy.Action.{Action, return, no_fuel}
use rabbitpy.Io.Read.{Unmarshalled, unmarshalled, unmarshaling_exception, frame_error, Io, round}

-- What `frame.unmarshal` documents: a frame takes at least one of the bytes that it is given, and
-- bytes that follow a whole frame do not change it.
pub record Decodes {F : Type 0} (unmarshal : List ℕ → Unmarshalled F) : Type 0 where
  pub consumes :
      (v : List ℕ) (n c : ℕ) (f : F) → unmarshal v ≡ unmarshalled n c f → (0 < n) × (n ≤ length v)
  pub stable :
      (v w : List ℕ) (n c : ℕ) (f : F)
      → unmarshal v ≡ unmarshalled n c f
      → unmarshal (v ++ w) ≡ unmarshalled n c f

-- Two states hold the same bytes, queues and channel 0; the counter `bytes_read` may differ.
pub record Same {F C : Type 0} (s t : Io F C) : Type 0 where
  pub buffer : s.buffer ≡ t.buffer
  pub channel0 : s.channel0 ≡ t.channel0
  pub channels : s.channels ≡ t.channels

pub drop-append :
    {A : Type 0} (n : ℕ) (v w : List A) → n ≤ length v → drop n (v ++ w) ≡ drop n v ++ w
drop-append zero v w h = refl
drop-append (suc n) [] w h = absurd (omega arith)
drop-append (suc n) (x ∷ v) w h = drop-append n v w (omega arith)

pub list_cases : {A : Type 0} (l : List A) → (l ≡ []) ⊎ ((x : A) × (xs : List A) × (l ≡ x ∷ xs))
list_cases [] = inl refl
list_cases (x ∷ xs) = inr (x, xs, refl)

module _ {F : Type 0} (unmarshal : List ℕ → Unmarshalled F) where
  -- What `unmarshal` says of a buffer.
  abbrev pub Fails : List ℕ → Type 0
  Fails v = (unmarshal v ≡ unmarshaling_exception) ⊎ (unmarshal v ≡ frame_error)

  abbrev pub Yields : List ℕ → ℕ → ℕ → F → Type 0
  Yields v n c f = unmarshal v ≡ unmarshalled n c f

  pub unmarshal_cases : (v : List ℕ) → Fails v ⊎ ((n c : ℕ) × (f : F) × Yields v n c f)
  unmarshal_cases v = go (unmarshal v) refl
    where
      go : (r : Unmarshalled F) → unmarshal v ≡ r → Fails v ⊎ ((n c : ℕ) × (f : F) × Yields v n c f)
      go (unmarshalled n c f) e = inr (n, c, f, e)
      go unmarshaling_exception e = inl (inl e)
      go frame_error e = inl (inr e)

module _ {F C : Type 0} (unmarshal : List ℕ → Unmarshalled F) (on_frame : F → Action C Unit) where
  pub round-Fails :
      (s : Io F C) (x : ℕ) (xs : List ℕ)
      → s.buffer ≡ x ∷ xs
      → Fails unmarshal s.buffer
      → round unmarshal on_frame s ≡ (return false, record s { bytes_read = s.bytes_read + 2 })
  unfolding round
  round-Fails s x xs e h = ground arith

  -- Rounds that cut the same frame out of two buffers deliver it alike.
  pub round-Yields :
      (s t : Io F C) (x y : ℕ) (xs ys : List ℕ) (n c : ℕ) (f : F)
      → s.buffer ≡ x ∷ xs
      → t.buffer ≡ y ∷ ys
      → Yields unmarshal s.buffer n c f
      → Yields unmarshal t.buffer n c f
      → s.channel0 ≡ t.channel0
      → s.channels ≡ t.channels
      → ((round unmarshal on_frame s).0 ≡ (round unmarshal on_frame t).0)
        × ((round unmarshal on_frame s).1.channel0 ≡ (round unmarshal on_frame t).1.channel0)
        × ((round unmarshal on_frame s).1.channels ≡ (round unmarshal on_frame t).1.channels)
        × ((round unmarshal on_frame s).1.buffer ≡ drop n s.buffer)
        × ((round unmarshal on_frame t).1.buffer ≡ drop n t.buffer)
        × ((round unmarshal on_frame s).0 ≢ return false)
  unfolding round
  round-Yields s t x y xs ys n zero f hs ht us ut e0 ec = ground arith
  round-Yields s t x y xs ys n (suc c) f hs ht us ut e0 ec = ground arith

  pub round_total :
      (s : Io F C) (x : ℕ) (xs : List ℕ) (n c : ℕ) (m : F) (o : Option C)
      → s.buffer ≡ x ∷ xs
      → Yields unmarshal s.buffer n c m
      → s.channel0 ≡ o
      → ((m : F) (c : C) → (on_frame m c).0 ≢ no_fuel)
      → (round unmarshal on_frame s).0 ≢ no_fuel
  unfolding round
  round_total s x xs n (suc c) m o e k z q = ground arith
  round_total s x xs n zero m none e k z q = ground arith
  round_total s x xs n zero m (some a) e k z q = ground (arith, q m a)
