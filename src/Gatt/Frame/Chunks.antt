-- ===== src/Gatt/Frame/Chunks.antt =====
-- Chunks: however the bytes of a stream are cut up, the parser finds the same frames.
use pinetime_dev_tools.Prelude.{
  ℕ, zero, suc, ◌+◌, ◌<◌, ◌≤◌, List, [], ◌∷◌, ◌++◌, length, length-append, append_assoc, append-nil,
  ◌≡◌, refl, ap, sym, ◌∙◌, arith,
}
use pinetime_dev_tools.Prelude.Result.{Result, ok, err}
use pinetime_dev_tools.Prelude.State.{pure, continue, ◌>>=◌}
use pinetime_dev_tools.Bytes.{Bytes}
use pinetime_dev_tools.Gatt.Frame.{
  Frame, FrameError, payload_exceeds, FrameParser, Found, incomplete, oversized, frame, next_frame,
  feed_loop, feed,
}
use pinetime_dev_tools.Gatt.Frame.Step.{Later, next-Later, next-Shrinks}

abbrev pub Outcome : Type 0
Outcome = Result FrameError (List Frame) × Bytes

-- One round, with the rest of the loop as the argument.
abbrev pub round : ℕ → Bytes → List Frame → Found → (Bytes → List Frame → Outcome) → Outcome
round maximum buffer frames incomplete k = (ok frames, buffer)
round maximum buffer frames (oversized n) k = (err (payload_exceeds n maximum), [])
round maximum buffer frames (frame f rest) k = k rest (frames ++ f ∷ [])

pub loop-round :
    (fuel maximum : ℕ) (buffer : Bytes) (frames : List Frame)
    → feed_loop (suc fuel) maximum buffer frames
      ≡ round maximum buffer frames (next_frame maximum buffer) (feed_loop fuel maximum)
unfolding feed_loop
loop-round fuel maximum buffer frames = go (next_frame maximum buffer)
  where
    go :
        (g : Found)
        → elim g [
          | incomplete ↦ (ok frames, buffer)
          | oversized size ↦ (err (payload_exceeds size maximum), [])
          | frame f rest ↦ feed_loop fuel maximum rest (frames ++ f ∷ [])
        ]
          ≡ round maximum buffer frames g (feed_loop fuel maximum)
    go incomplete = refl
    go (oversized n) = refl
    go (frame f rest) = refl

module _ (maximum : ℕ) (buffer : Bytes) (frames : List Frame) where
  round-ext :
      (g : Found) (k l : Bytes → List Frame → Outcome)
      → ((f : Frame) (rest : Bytes)
          → g ≡ frame f rest
          → k rest (frames ++ f ∷ []) ≡ l rest (frames ++ f ∷ []))
      → round maximum buffer frames g k ≡ round maximum buffer frames g l
  round-ext incomplete k l h = refl
  round-ext (oversized n) k l h = refl
  round-ext (frame f rest) k l h = h f rest refl

  shorter :
      (f : Frame) (rest : Bytes)
      → next_frame maximum buffer ≡ frame f rest
      → length rest < length buffer
  shorter f rest e = (rw e at (next-Shrinks maximum buffer)).0

-- Fuel above the length of the buffer is never used up: more of it changes nothing.
pub loop_fuel :
    (f g maximum : ℕ) (buffer : Bytes) (frames : List Frame)
    → length buffer < f
    → length buffer < g
    → feed_loop f maximum buffer frames ≡ feed_loop g maximum buffer frames
loop_fuel zero g maximum buffer frames hf hg = absurd (omega arith)
loop_fuel (suc f) zero maximum buffer frames hf hg = absurd (omega arith)
loop_fuel (suc f) (suc g) maximum buffer frames hf hg =
    loop-round f maximum buffer frames
    ∙ round-ext maximum buffer frames (next_frame maximum buffer) (feed_loop f maximum)
        (feed_loop g maximum)
        (λ x rest e.
          let less = shorter maximum buffer frames x rest e in
          loop_fuel f g maximum rest (frames ++ x ∷ []) (omega arith) (omega arith))
    ∙ sym (loop-round g maximum buffer frames)

-- Frames that were found before come first.
abbrev behind : List Frame → Outcome → Outcome
behind fs (ok gs, b) = (ok (fs ++ gs), b)
behind fs (err e, b) = (err e, b)

loop-behind :
    (fuel maximum : ℕ) (buffer : Bytes) (fs gs : List Frame)
    → feed_loop fuel maximum buffer (fs ++ gs) ≡ behind fs (feed_loop fuel maximum buffer gs)
loop-behind zero maximum buffer fs gs = unfold feed_loop in refl
loop-behind (suc fuel) maximum buffer fs gs =
    loop-round fuel maximum buffer (fs ++ gs)
    ∙ go (next_frame maximum buffer) (λ f rest. loop-behind fuel maximum rest fs (gs ++ f ∷ []))
    ∙ ap (behind fs) (sym (loop-round fuel maximum buffer gs))
  where
    go :
        (g : Found)
        → ((f : Frame) (rest : Bytes)
            → feed_loop fuel maximum rest (fs ++ (gs ++ f ∷ []))
              ≡ behind fs (feed_loop fuel maximum rest (gs ++ f ∷ [])))
        → round maximum buffer (fs ++ gs) g (feed_loop fuel maximum)
          ≡ behind fs (round maximum buffer gs g (feed_loop fuel maximum))
    go incomplete h = refl
    go (oversized n) h = refl
    go (frame f rest) h = rw append_assoc (h f rest)

-- Going on from an outcome when more bytes come.
abbrev resume : Bytes → (Bytes → List Frame → Outcome) → Outcome → Outcome
resume ys k (ok fs, b) = k (b ++ ys) fs
resume ys k (err e, b) = (err e, b)

loop-append :
    (f g h maximum : ℕ) (b ys : Bytes) (fs : List Frame)
    → length b < f
    → length b + length ys < g
    → length b + length ys < h
    → feed_loop g maximum (b ++ ys) fs ≡ resume ys (feed_loop h maximum) (feed_loop f maximum b fs)
loop-append zero g h maximum b ys fs hf hg hh = absurd (omega arith)
loop-append (suc f) zero h maximum b ys fs hf hg hh = absurd (omega arith)
loop-append (suc f) (suc g) h maximum b ys fs hf hg hh =
    loop-round g maximum (b ++ ys) fs
    ∙ go (next_frame maximum b) (next_frame maximum (b ++ ys)) (next-Later maximum b ys) whole refl
        (λ x rest less.
          loop-append f g h maximum rest ys (fs ++ x ∷ []) (omega arith) (omega arith)
            (omega arith))
    ∙ ap (resume ys (feed_loop h maximum)) (sym (loop-round f maximum b fs))
  where
    whole :
        round maximum (b ++ ys) fs (next_frame maximum (b ++ ys)) (feed_loop g maximum)
        ≡ feed_loop h maximum (b ++ ys) fs
    whole =
        sym (loop-round g maximum (b ++ ys) fs)
        ∙ loop_fuel (suc g) h maximum (b ++ ys) fs (omega (arith, length-append b ys))
            (omega (arith, length-append b ys))

    go :
        (found found_later : Found)
        → Later found ys found_later
        → round maximum (b ++ ys) fs found_later (feed_loop g maximum)
          ≡ feed_loop h maximum (b ++ ys) fs
        → next_frame maximum b ≡ found
        → ((x : Frame) (rest : Bytes)
            → length rest < length b
            → feed_loop g maximum (rest ++ ys) (fs ++ x ∷ [])
              ≡ resume ys (feed_loop h maximum) (feed_loop f maximum rest (fs ++ x ∷ [])))
        → round maximum (b ++ ys) fs found_later (feed_loop g maximum)
          ≡ resume ys (feed_loop h maximum) (round maximum b fs found (feed_loop f maximum))
    go incomplete found_later l w e again = w
    go (oversized n) found_later l w e again = rw l refl
    go (frame x rest) found_later l w e again = rw l (again x rest (shorter maximum b fs x rest e))

-- What is left is never longer than what was there.
pub loop-length :
    (fuel maximum : ℕ) (b : Bytes) (fs : List Frame)
    → length (feed_loop fuel maximum b fs).1 ≤ length b
loop-length zero maximum b fs = unfold feed_loop in omega arith
loop-length (suc fuel) maximum b fs =
    rw loop-round
      (go (next_frame maximum b) refl (λ x rest. loop-length fuel maximum rest (fs ++ x ∷ [])))
  where
    go :
        (found : Found)
        → next_frame maximum b ≡ found
        → ((x : Frame) (rest : Bytes)
            → length (feed_loop fuel maximum rest (fs ++ x ∷ [])).1 ≤ length rest)
        → length (round maximum b fs found (feed_loop fuel maximum)).1 ≤ length b
    go incomplete e h = omega arith
    go (oversized n) e h = omega arith
    go (frame x rest) e h = omega (arith, h x rest, shorter maximum b fs x rest e)

-- The parser behind an outcome of the loop.
abbrev settle : ℕ → Outcome → Result FrameError (List Frame) × FrameParser
settle maximum o = (o.0, record { maximum_payload = maximum; buffer = o.1 })

-- The second chunk, after an outcome for the first.
abbrev feed_second : ℕ → Bytes → Outcome → Result FrameError (List Frame) × FrameParser
feed_second maximum ys o =
    let (r, p) = settle maximum o in (continue r (λ fs. feed ys >>= λ gs. pure (fs ++ gs))) p

second_chunk :
    (maximum h : ℕ) (ys : Bytes) (o : Outcome)
    → length o.1 + length ys < h
    → settle maximum (resume ys (feed_loop h maximum) o) ≡ feed_second maximum ys o
unfolding feed
second_chunk maximum h ys (err e, b) less = refl
second_chunk maximum h ys (ok fs, b) less =
    ap (settle maximum) (
      loop_fuel h (suc (length (b ++ ys))) maximum (b ++ ys) fs (omega (arith, length-append b ys))
        (omega arith)
      ∙ rw append-nil at (loop-behind (suc (length (b ++ ys))) maximum (b ++ ys) fs []))
    ∙ go (feed_loop (suc (length (b ++ ys))) maximum (b ++ ys) [])
  where
    go :
        (o : Outcome)
        → settle maximum (behind fs o)
          ≡ continue (settle maximum o).0 (λ gs. pure (fs ++ gs)) (settle maximum o).1
    go (ok gs, left) = refl
    go (err e, left) = refl

-- Feeding two chunks one after the other is feeding their concatenation: the same frames in the
-- same order, the same bytes left, and the same error if there is one.
pub feed-append :
    (xs ys : Bytes) (p : FrameParser)
    → feed (xs ++ ys) p ≡ (do fs ← feed xs; gs ← feed ys; pure (fs ++ gs)) p
unfolding feed
feed-append xs ys p =
    let b = p.buffer ++ xs in
    let f = suc (length b) in
    let h = suc (length b + length ys) in
    let maximum = p.maximum_payload in
    ap (λ t. settle maximum (feed_loop (suc (length t)) maximum t []))
      (sym (append_assoc p.buffer xs ys))
    ∙ ap (settle maximum) (
        loop-append f (suc (length (b ++ ys))) h maximum b ys [] (omega arith)
          (omega (arith, length-append b ys)) (omega arith))
    ∙ second_chunk maximum h ys (feed_loop f maximum b [])
        (omega (arith, loop-length f maximum b []))
