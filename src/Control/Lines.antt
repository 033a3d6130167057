-- ===== src/Control/Lines.antt =====
-- `LineParser` of src/ptlab/control.py.
pub mod Rounds
pub mod Stream
use mathlib.Core.Option
use pinetime_dev_tools.Prelude.{
  ℕ, zero, suc, ◌+◌, List, [], ◌∷◌, ◌++◌, Option, none, some, Bool, true, false, ltb, ◌==◌,
  if◌then◌else◌, length, take, drop,
}
use pinetime_dev_tools.Prelude.Result.{Result, ok, err}
use pinetime_dev_tools.Prelude.State.{Exec}
use pinetime_dev_tools.Prelude.Texts.{Text}
use pinetime_dev_tools.Bytes.{Bytes}
use pinetime_dev_tools.Utf8.{utf8_decode}

abbrev pub max_control_line : ℕ
max_control_line = 1024

-- The ControlProtocolErrors of the parser.
pub data LineError : Type 0 where
  line_too_long not_utf8 : LineError

pub record LineParser : Type 0 where
  pub maximum_line : ℕ
  pub buffer : Bytes

-- self._buffer.find(b"\n")
unfoldable pub find_newline : Bytes → Option ℕ
find_newline [] = none
find_newline (b ∷ bs) = if b == b'\n' then some 0 else Option.map suc (find_newline bs)

-- raw[:-1] if raw.endswith(b"\r")
unfoldable pub strip_return : Bytes → Bytes
strip_return [] = []
strip_return (b ∷ []) = if b == b'\r' then [] else b ∷ []
strip_return (b ∷ c ∷ cs) = b ∷ strip_return (c ∷ cs)

-- An empty line is not returned.
abbrev pub add_line : List Text → Text → List Text
add_line lines [] = lines
add_line lines (c ∷ cs) = lines ++ (c ∷ cs) ∷ []

abbrev pub LineOutcome : Type 0
LineOutcome = Result LineError (List Text) × Bytes

abbrev pub on_text : Option Text → Bytes → (Text → LineOutcome) → LineOutcome
on_text none left k = (err not_utf8, left)
on_text (some line) left k = k line

-- The `while True` loop. Each round takes a newline off the buffer, so fuel above its length is
-- never used up.
unfoldable pub feed_loop : ℕ → ℕ → Bytes → List Text → Result LineError (List Text) × Bytes
feed_loop zero maximum buffer lines = (ok lines, buffer)
feed_loop (suc fuel) maximum buffer lines = elim (find_newline buffer) [
  | none ↦ if ltb maximum (length buffer) then (err line_too_long, []) else (ok lines, buffer)
  | some newline ↦
      let left = drop (newline + 1) buffer in
      let next =
        on_text (utf8_decode (strip_return (take newline buffer))) left
          (λ line. feed_loop fuel maximum left (add_line lines line)) in
      if ltb maximum newline then (err line_too_long, []) else next
]

unfoldable pub feed : Bytes → Exec LineParser LineError (List Text)
unfolding feed_loop find_newline strip_return
feed bs p =
    let buffer = p.buffer ++ bs in
    let (r, left) = feed_loop (suc (length buffer)) p.maximum_line buffer [] in
    (r, record p { buffer = left })
