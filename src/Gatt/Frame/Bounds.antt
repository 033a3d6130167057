-- ===== src/Gatt/Frame/Bounds.antt =====
-- What every call of `feed` leaves, on each of its two ways out.
use pinetime_dev_tools.Prelude.{
  ℕ, zero, suc, ◌+◌, ◌<◌, ◌≤◌, List, [], ◌∷◌, ◌++◌, ◌==◌, length, Bool-cases, inl, inr, ◌≡◌, refl,
  arith, All, All-append,
}
use pinetime_dev_tools.Prelude.Result.{Result, ok, err}
use pinetime_dev_tools.Bytes.{Bytes, uint_at}
use pinetime_dev_tools.Gatt.Frame.{
  Frame, response, notification, FrameError, payload_exceeds, FrameParser, Found, incomplete,
  oversized, frame, next_frame, feed_loop, feed, notification_mark, cut_frame,
}
use pinetime_dev_tools.Gatt.Frame.Step.{Shrinks, next-Shrinks, payload}
use pinetime_dev_tools.Gatt.Frame.Chunks.{Outcome, round, loop-round}

-- A buffer at whose front no frame is complete is shorter than the longest frame.
cut_short :
    (maximum header : ℕ) (make : Bytes → Frame) (b : Bytes)
    → header ≤ 4
    → cut_frame maximum header make b ≡ incomplete
    → length b < 4 + maximum
cut_short maximum header make b h e = ground arith

incomplete_short :
    (maximum : ℕ) (b : Bytes) → next_frame maximum b ≡ incomplete → length b < 4 + maximum
unfolding next_frame
incomplete_short maximum [] e = omega arith
incomplete_short maximum (b ∷ bs) e = elim (Bool-cases (b == notification_mark)) [
  | inl mark ↦
      cut_short maximum 4 (notification (uint_at 1 1 (b ∷ bs))) (b ∷ bs) (omega arith)
        (rw mark at e)
  | inr other ↦ cut_short maximum 3 (response b) (b ∷ bs) (omega arith) (rw other at e)
]

abbrev pub Within : ℕ → Frame → Type 0
Within maximum f = length (payload f) ≤ maximum

abbrev pub Sound : ℕ → Outcome → Type 0
Sound maximum (ok fs, left) =
    (next_frame maximum left ≡ incomplete) × (length left < 4 + maximum) × All (Within maximum) fs
Sound maximum (err (payload_exceeds n m), left) = (m ≡ maximum) × (maximum < n) × (left ≡ [])

loop-Sound :
    (fuel maximum : ℕ) (b : Bytes) (fs : List Frame)
    → length b < fuel
    → All (Within maximum) fs
    → Sound maximum (feed_loop fuel maximum b fs)
loop-Sound zero maximum b fs less h = absurd (omega arith)
loop-Sound (suc fuel) maximum b fs less h = rw loop-round (
    go (next_frame maximum b) refl (next-Shrinks maximum b) (λ x rest shorter fits.
      loop-Sound fuel maximum rest (fs ++ x ∷ []) (omega arith)
        (All-append (Within maximum) fs (x ∷ []) h (fits, tt))))
  where
    go :
        (found : Found)
        → next_frame maximum b ≡ found
        → Shrinks maximum b found
        → ((x : Frame) (rest : Bytes)
            → length rest < length b
            → Within maximum x
            → Sound maximum (feed_loop fuel maximum rest (fs ++ x ∷ [])))
        → Sound maximum (round maximum b fs found (feed_loop fuel maximum))
    go incomplete e s again = (e, incomplete_short maximum b e, h)
    go (oversized n) e s again = (refl, s, refl)
    go (frame x rest) e s again = again x rest s.0 s.1

abbrev pub outcome : Result FrameError (List Frame) × FrameParser → Outcome
outcome o = (o.0, o.1.buffer)

-- Every call of `feed` ends in one of two ways. It returns frames whose payloads are within the
-- limit, and leaves a buffer that starts no complete frame and is shorter than the limit and four
-- bytes. Or it raises for a size above the limit, and leaves the buffer empty. The limit is kept.
pub feed-Sound :
    (bs : Bytes) (p : FrameParser)
    → Sound p.maximum_payload (outcome (feed bs p))
      × ((feed bs p).1.maximum_payload ≡ p.maximum_payload)
unfolding feed
feed-Sound bs p = (
  loop-Sound (suc (length (p.buffer ++ bs))) p.maximum_payload (p.buffer ++ bs) [] (omega arith) tt,
  refl,
)
