-- ===== src/Io/Loop/Stream.antt =====
-- The bytes that the IO loop (rabbitpy/io.py) puts on the wire, against the bytes it was given.
use rabbitpy.Prelude.{
  ℕ, zero, suc, ◌≡◌, refl, sym, ◌∙◌, ap, Bool, true, false, String, List, [], ◌∷◌, ◌++◌, map, arith,
  take, drop, length, take-append-drop, append_assoc, ltb, Bool-cases, ◌==◌, inl, inr,
}
use mathlib.Core.Path.{subst}
use rabbitpy.Io.Loop.{Loop, Send, accepted, timed_out, failed, on_error, write, after_send}

abbrev pub concat : List (List ℕ) → List ℕ
concat [] = []
concat (x ∷ xs) = x ++ concat xs

pub concat-append : (xs ys : List (List ℕ)) → concat (xs ++ ys) ≡ concat xs ++ concat ys
concat-append [] ys = refl
concat-append (x ∷ xs) ys = rw (concat-append xs ys) (sym (append_assoc x (concat xs) (concat ys)))

drop_all : (n : ℕ) (v : List ℕ) → ltb n (length v) ≡ false → drop n v ≡ []
drop_all zero [] h = refl
drop_all zero (x ∷ v) h = ground arith
drop_all (suc n) [] h = refl
drop_all (suc n) (x ∷ v) h = drop_all n v (ground arith)

module _ {F R : Type 0} (marshal : F → ℕ → List ℕ) where
  -- The bytes that wait: the buffered ones, and those of the frames in the queue.
  abbrev pub pending : Loop F R → List ℕ
  pending s = concat s.write_buffer ++ concat (map (λ p. marshal p.1 p.0) s.write_queue)

  -- Of the bytes `total`, the socket has accepted a front part. While the loop runs, the rest is
  -- exactly what waits.
  pub record OnWire (total : List ℕ) (s : Loop F R) : Type 0 where
    pub rest : List ℕ
    pub split : s.sent ++ rest ≡ total
    pub waits : s.running ≡ true → rest ≡ pending s

  module _ (total : List ℕ) where
    -- A step that leaves the bytes alone and does not start the loop keeps the invariant.
    pub OnWire-same :
        (s t : Loop F R)
        → t.sent ≡ s.sent
        → t.write_buffer ≡ s.write_buffer
        → t.write_queue ≡ s.write_queue
        → (t.running ≡ true → s.running ≡ true)
        → OnWire total s
        → OnWire total t
    OnWire-same s t es eb eq r w = record {
      rest = w.rest;
      split = rw es w.split;
      waits = λ h. rw (eb, eq) (w.waits (r h));
    }

    pub on_error-OnWire :
        (x : String) (s : Loop F R) → OnWire total s → OnWire total (on_error x s).1
    unfolding on_error
    on_error-OnWire x s w =
        OnWire-same s (on_error x s).1 (ground arith) (ground arith) (ground arith)
          (λ h. ground arith) w

    -- What a send that took `n` bytes leaves.
    accepted_leaves :
        (s : Loop F R) (n : ℕ) (f : List ℕ)
        → ((after_send f (accepted n) s).1.sent ≡ s.sent ++ take n f)
          × ((after_send f (accepted n) s).1.write_queue ≡ s.write_queue)
          × (concat (after_send f (accepted n) s).1.write_buffer
              ≡ drop n f ++ concat s.write_buffer)
    unfolding after_send
    accepted_leaves s n f = elim (Bool-cases (ltb n (length f))) [
      | inl h ↦ (ground arith, ground arith, rw h)
      | inr h ↦ (ground arith, ground arith, rw (h, drop_all n f h))
    ]

    accepted-OnWire :
        (s : Loop F R) (n : ℕ) (f : List ℕ) (rest : List (List ℕ))
        → s.running ≡ true
        → s.write_buffer ≡ f ∷ rest
        → OnWire total s
        → OnWire total (after_send f (accepted n) (record s { write_buffer = rest })).1
    accepted-OnWire s n f rest r b w =
        let queued : List ℕ = concat (map (λ p. marshal p.1 p.0) s.write_queue) in
        let (sent', queue', buffer') = accepted_leaves (record s { write_buffer = rest }) n f in
        let e : w.rest ≡ (f ++ concat rest) ++ queued =
          w.waits r ∙ ap (λ l. concat l ++ queued) b in
        record {
          rest = (drop n f ++ concat rest) ++ queued;
          split = rw sent' (
              append_assoc s.sent (take n f) ((drop n f ++ concat rest) ++ queued)
              ∙ ap (λ l. s.sent ++ l)
                  (sym (append_assoc (take n f) (drop n f ++ concat rest) queued)
                    ∙ ap (λ l. l ++ queued) (sym (append_assoc (take n f) (drop n f) (concat rest)))
                    ∙ ap (λ l. (l ++ concat rest) ++ queued) (take-append-drop n f)
                    ∙ sym e)
              ∙ w.split);
          waits = λ h. rw (buffer', queue') refl;
        }

    send-OnWire :
        (r : Send) (s : Loop F R) (f : List ℕ) (rest : List (List ℕ))
        → s.running ≡ true
        → s.write_buffer ≡ f ∷ rest
        → OnWire total s
        → OnWire total (after_send f r (record s { write_buffer = rest })).1
    unfolding after_send
    send-OnWire (accepted n) s f rest r b w = accepted-OnWire s n f rest r b w
    send-OnWire timed_out s f rest r b w = OnWire-same s _ refl (sym b) refl (λ h. h) w
    send-OnWire (failed errno) s f rest r b w = elim (Bool-cases (errno == 35)) [
      | inl h ↦ rw h (OnWire-same s _ refl (sym b) refl (λ k. k) w)
      | inr h ↦ rw h (
          on_error-OnWire "send" (record s { write_buffer = rest; running = false })
            (record { rest = w.rest; split = w.split; waits = λ k. cc }))
    ]

    pub write-OnWire :
        (send : List ℕ → Send) (s : Loop F R) → OnWire total s → OnWire total (write send s).1
    unfolding write
    write-OnWire send s w = go s.running s.write_buffer refl refl
      where
        go :
            (r : Bool) (b : List (List ℕ))
            → s.running ≡ r
            → s.write_buffer ≡ b
            → OnWire total (write send s).1
        go false b er eb = subst (λ t. OnWire total t) (ground arith) w
        go true [] er eb = subst (λ t. OnWire total t) (ground arith) w
        go true (f ∷ rest) er eb =
            subst (λ t. OnWire total t) (ground arith) (send-OnWire (send f) s f rest er eb w)
