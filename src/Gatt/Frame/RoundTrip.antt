-- ===== src/Gatt/Frame/RoundTrip.antt =====
-- The parser against a bridge that writes frames: every stream of frames is read back, and what
-- the parser keeps is the start of a frame that is not complete.
use pinetime_dev_tools.Prelude.{
  ℕ, zero, suc, ◌+◌, ◌-◌, ◌*◌, ◌^◌, ◌<◌, ◌≤◌, List, [], ◌∷◌, ◌++◌, false, ltb, ◌==◌, length, drop,
  length-append, append_assoc, append-nil, take-append_self, ◌≡◌, ◌≢◌, refl, ap, sym, ◌∙◌, arith,
  All,
}
use mathlib.Core.Path.{fun_ext}
use pinetime_dev_tools.Prelude.Result.{Result, ok, err}
use pinetime_dev_tools.Prelude.State.{Exec, pure, continue, ◌>>=◌}
use pinetime_dev_tools.Bytes.{Bytes, le_bytes, uint_at}
use pinetime_dev_tools.Bytes.Layout.{le_value-le_bytes, drop_behind}
use pinetime_dev_tools.Gatt.Frame.{
  Frame, response, notification, FrameError, FrameParser, frame, next_frame, feed_loop, feed,
  cut_sized, cut_frame,
}
use pinetime_dev_tools.Gatt.Frame.Chunks.{round, loop-round, feed-append}

-- The bytes of a frame on the wire.
abbrev pub frame_bytes : Frame → Bytes
frame_bytes (response s bs) = s ∷ (le_bytes 2 (length bs) ++ bs)
frame_bytes (notification c bs) = 0xf0 ∷ c ∷ (le_bytes 2 (length bs) ++ bs)

abbrev pub stream_bytes : List Frame → Bytes
stream_bytes [] = []
stream_bytes (f ∷ fs) = frame_bytes f ++ stream_bytes fs

-- What the format can tell apart: a payload within the limit, and a status that is not the mark of
-- a notification.
abbrev pub FrameFits : ℕ → Frame → Type 0
FrameFits maximum (response s bs) = (s ≢ 0xf0) × (length bs ≤ maximum)
FrameFits maximum (notification c bs) = length bs ≤ maximum

module _ (maximum : ℕ) where
  cut_written :
      (header : ℕ) (make : Bytes → Frame) (front bs rest : Bytes)
      → length front ≡ header
      → length bs ≤ maximum
      → cut_sized maximum header make (length bs) (front ++ (bs ++ rest)) ≡ frame (make bs) rest
  cut_written header make front bs rest e h =
      rw (within, enough)
        (cc (
          drop_behind header front (bs ++ rest) e,
          ap (drop (header + length bs)) (append_assoc front bs rest),
          drop_behind (header + length bs) (front ++ bs) rest both,
          take-append_self bs rest,
        ))
    where
      within : ltb maximum (length bs) ≡ false
      within = ground arith

      enough : ltb (length (front ++ (bs ++ rest))) (header + length bs) ≡ false
      enough = ground (arith, length-append front (bs ++ rest), length-append bs rest)

      both : length (front ++ bs) ≡ header + length bs
      both = omega (arith, length-append front bs)

  -- The header of a frame names the size of its payload.
  cut_header :
      (header : ℕ) (make : Bytes → Frame) (front bs rest : Bytes)
      → length front ≡ header
      → uint_at 2 (header - 2) (front ++ (bs ++ rest)) ≡ length bs
      → length bs ≤ maximum
      → cut_frame maximum header make (front ++ (bs ++ rest)) ≡ frame (make bs) rest
  cut_header header make front bs rest e size h =
      rw (enough, size) (cut_written header make front bs rest e h)
    where
      enough : ltb (length (front ++ (bs ++ rest))) header ≡ false
      enough = ground (arith, length-append front (bs ++ rest))

  pub next-frame_bytes :
      (f : Frame) (rest : Bytes)
      → maximum < 2 ^ 16
      → FrameFits maximum f
      → next_frame maximum (frame_bytes f ++ rest) ≡ frame f rest
  unfolding next_frame
  next-frame_bytes (response s bs) rest limit h = rw not_mark (
      cut_header 3 (response s) (s ∷ le_bytes 2 (length bs)) bs rest refl
        (le_value-le_bytes 2 (length bs) (omega arith)) h.1)
    where
      not_mark : (s == 0xf0) ≡ false
      not_mark = ground arith
  next-frame_bytes (notification c bs) rest limit h =
      cut_header 4 (notification (c + 256 * 0)) (0xf0 ∷ c ∷ le_bytes 2 (length bs)) bs rest refl
        (le_value-le_bytes 2 (length bs) (omega arith)) h
      ∙ ap (λ t. frame (notification t bs) rest) (omega arith)

  -- The loop over a written stream.
  loop-stream :
      (fuel : ℕ) (fs found : List Frame)
      → maximum < 2 ^ 16
      → All (FrameFits maximum) fs
      → length (stream_bytes fs) < fuel
      → feed_loop fuel maximum (stream_bytes fs) found ≡ (ok (found ++ fs), [])
  loop-stream zero fs found limit h less = absurd (omega arith)
  loop-stream (suc fuel) [] found limit h less =
      loop-round fuel maximum [] found ∙ unfold next_frame in rw append-nil
  loop-stream (suc fuel) (f ∷ fs) found limit h less =
      loop-round fuel maximum (frame_bytes f ++ stream_bytes fs) found
      ∙ ap (λ g. round maximum (frame_bytes f ++ stream_bytes fs) found g (feed_loop fuel maximum))
          (next-frame_bytes f (stream_bytes fs) limit h.0)
      ∙ loop-stream fuel fs (found ++ f ∷ []) limit h.1 (rest_less f less)
      ∙ ap (λ t. (ok t, [])) (append_assoc found (f ∷ []) fs)
    where
      rest_less :
          (g : Frame)
          → length (frame_bytes g ++ stream_bytes fs) < suc fuel
          → length (stream_bytes fs) < fuel
      rest_less (response s bs) l =
          omega (arith, length-append (frame_bytes (response s bs)) (stream_bytes fs))
      rest_less (notification c bs) l =
          omega (arith, length-append (frame_bytes (notification c bs)) (stream_bytes fs))

-- Chunk by chunk, with the frames in order.
unfoldable pub feed_all : List Bytes → Exec FrameParser FrameError (List Frame)
feed_all [] = pure []
feed_all (c ∷ cs) = do fs ← feed c; gs ← feed_all cs; pure (fs ++ gs)

abbrev pub joined : List Bytes → Bytes
joined [] = []
joined (c ∷ cs) = c ++ joined cs

abbrev pub fresh : ℕ → FrameParser
fresh maximum = record { maximum_payload = maximum; buffer = [] }

-- Nothing comes behind the frames of the last chunk.
append_nothing :
    (o : Result FrameError (List Frame) × FrameParser)
    → o ≡ continue o.0 (λ fs. pure [] >>= λ gs. pure (fs ++ gs)) o.1
append_nothing (ok fs, p) = rw append-nil
append_nothing (err e, p) = refl

feed-joined :
    (c : Bytes) (cs : List Bytes) (p : FrameParser) → feed (joined (c ∷ cs)) p ≡ feed_all (c ∷ cs) p
unfolding feed_all
feed-joined c [] p = ap (λ t. feed t p) (append-nil c) ∙ append_nothing (feed c p)
feed-joined c (d ∷ ds) p =
    feed-append c (joined (d ∷ ds)) p
    ∙ ap
        (λ (m : Exec FrameParser FrameError (List Frame)).
          (feed c >>= λ fs. m >>= λ gs. pure (fs ++ gs)) p)
        (fun_ext (feed-joined d ds))

feed-stream :
    (maximum : ℕ) (fs : List Frame)
    → maximum < 2 ^ 16
    → All (FrameFits maximum) fs
    → feed (stream_bytes fs) (fresh maximum) ≡ (ok fs, fresh maximum)
unfolding feed
feed-stream maximum fs limit h =
    ap
      (λ (o : Result FrameError (List Frame) × Bytes).
        (o.0, record { maximum_payload = maximum; buffer = o.1 }))
      (loop-stream maximum (suc (length (stream_bytes fs))) fs [] limit h (omega arith))

no_frames : (fs : List Frame) → [] ≡ stream_bytes fs → fs ≡ []
no_frames [] e = refl
no_frames (response s bs ∷ fs) e = cc
no_frames (notification c bs ∷ fs) e = cc

-- However a stream of frames is cut into chunks, a fresh parser that is fed the chunks one by one
-- returns exactly these frames in order and is left empty, where the limit is below 2 ^ 16, each
-- payload is within the limit, and no response has the status 0xf0.
pub feed_all-stream :
    (maximum : ℕ) (fs : List Frame) (chunks : List Bytes)
    → maximum < 2 ^ 16
    → All (FrameFits maximum) fs
    → joined chunks ≡ stream_bytes fs
    → feed_all chunks (fresh maximum) ≡ (ok fs, fresh maximum)
unfolding feed_all
feed_all-stream maximum fs [] limit h e =
    ap (λ (t : List Frame). (ok t, fresh maximum)) (sym (no_frames fs e))
feed_all-stream maximum fs (c ∷ cs) limit h e =
    sym (feed-joined c cs (fresh maximum))
    ∙ ap (λ t. feed t (fresh maximum)) e
    ∙ feed-stream maximum fs limit h
