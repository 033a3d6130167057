-- ===== src/Gatt/Frame.antt =====
-- `GattFrameParser` of src/ptlab/gatt.py: a buffer, and the loop that cuts frames off its front.
pub mod Step
pub mod Chunks
pub mod RoundTrip
pub mod Bounds
use pinetime_dev_tools.Prelude.{
  ℕ, zero, suc, ◌+◌, ◌-◌, List, [], ◌∷◌, ◌++◌, Bool, ltb, ◌==◌, if◌then◌else◌, length, take, drop,
}
use pinetime_dev_tools.Prelude.Result.{Result, ok, err}
use pinetime_dev_tools.Prelude.State.{Exec}
use pinetime_dev_tools.Bytes.{Bytes, uint_at}

-- A GattResponse with its status, or a GattNotification with its characteristic.
pub data Frame : Type 0 where
  response : ℕ → Bytes → Frame
  notification : ℕ → Bytes → Frame

-- GattProtocolError of the parser: the size that was announced, and the limit.
pub data FrameError : Type 0 where
  payload_exceeds : ℕ → ℕ → FrameError

pub record FrameParser : Type 0 where
  pub maximum_payload : ℕ
  pub buffer : Bytes

abbrev pub notification_mark : ℕ
notification_mark = 0xf0

-- What one round of the loop finds at the front of the buffer.
pub data Found : Type 0 where
  incomplete : Found
  oversized : ℕ → Found
  frame : Frame → Bytes → Found

-- The round once the size of the payload is known.
abbrev pub cut_sized : ℕ → ℕ → (Bytes → Frame) → ℕ → Bytes → Found
cut_sized maximum header_size make payload_size buffer =
    if ltb maximum payload_size
    then oversized payload_size
    else if ltb (length buffer) (header_size + payload_size)
    then incomplete
    else frame (make (take payload_size (drop header_size buffer)))
        (drop (header_size + payload_size) buffer)

-- The round behind the test of the first byte. The last two bytes of the header are the size.
abbrev pub cut_frame : ℕ → ℕ → (Bytes → Frame) → Bytes → Found
cut_frame maximum header_size make buffer =
    if ltb (length buffer) header_size
    then incomplete
    else cut_sized maximum header_size make (uint_at 2 (header_size - 2) buffer) buffer

unfoldable pub next_frame : ℕ → Bytes → Found
next_frame maximum [] = incomplete
next_frame maximum (b ∷ bs) =
    if b == notification_mark
    then cut_frame maximum 4 (notification (uint_at 1 1 (b ∷ bs))) (b ∷ bs)
    else cut_frame maximum 3 (response b) (b ∷ bs)

-- The `while` loop. A frame takes at least three bytes off the buffer, so fuel above its length is
-- never used up.
unfoldable pub feed_loop : ℕ → ℕ → Bytes → List Frame → Result FrameError (List Frame) × Bytes
unfolding next_frame
feed_loop zero maximum buffer frames = (ok frames, buffer)
feed_loop (suc fuel) maximum buffer frames = elim (next_frame maximum buffer) [
  | incomplete ↦ (ok frames, buffer)
  | oversized size ↦ (err (payload_exceeds size maximum), [])
  | frame f rest ↦ feed_loop fuel maximum rest (frames ++ f ∷ [])
]

unfoldable pub feed : Bytes → Exec FrameParser FrameError (List Frame)
unfolding feed_loop
feed bs p =
    let buffer = p.buffer ++ bs in
    let (r, left) = feed_loop (suc (length buffer)) p.maximum_payload buffer [] in
    (r, record p { buffer = left })

abbrev pub pending_bytes : FrameParser → ℕ
pending_bytes p = length p.buffer
