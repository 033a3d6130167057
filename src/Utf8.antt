-- ===== src/Utf8.antt =====
-- The UTF-8 codec of Python's `str.encode` and `bytes.decode`, strict in both directions, which
-- src/ptlab/wire.py and src/ptlab/control.py use. A text is the list of its code points.
pub mod RoundTrip
use mathlib.Core.Option
use pinetime_dev_tools.Prelude.{
  ℕ, zero, suc, ◌+◌, ◌-◌, ◌*◌, ◌/◌, ◌%◌, [], ◌∷◌, not, Option, none, some, Bool, ◌&&◌, ltb, leb,
  if◌then◌else◌,
}
use pinetime_dev_tools.Prelude.Texts.{Text}
use pinetime_dev_tools.Bytes.{Bytes, join_bytes}

abbrev pub is_surrogate : ℕ → Bool
is_surrogate c = leb 0xd800 c && leb c 0xdfff

-- The low six bits of a quotient, as a continuation byte.
abbrev pub tail_byte : ℕ → ℕ
tail_byte n = 0x80 + n % 64

unfoldable pub encode_char : ℕ → Option Bytes
encode_char c =
    if ltb c 0x80
    then some (c ∷ [])
    else if ltb c 0x800
    then some ((0xc0 + c / 64) ∷ tail_byte c ∷ [])
    else if is_surrogate c
    then none
    else if ltb c 0x10000
    then some ((0xe0 + c / 4096) ∷ tail_byte (c / 64) ∷ tail_byte c ∷ [])
    else if ltb c 0x110000
    then some ((0xf0 + c / 262144) ∷ tail_byte (c / 4096) ∷ tail_byte (c / 64) ∷ tail_byte c ∷ [])
    else none

abbrev pub is_tail : ℕ → Bool
is_tail b = leb 0x80 b && leb b 0xbf

-- The character of a leading byte and its continuation bytes, with the number of the latter: the
-- bytes continue, fewer would not do, and the value is no surrogate and no more than 0x10ffff.
abbrev two_bytes : ℕ → Bytes → Option (ℕ × ℕ)
two_bytes a (b ∷ rest) =
    let c = (a - 0xc0) * 64 + (b - 0x80) in if is_tail b && leb 0x80 c then some (c, 1) else none
two_bytes a [] = none

abbrev three_bytes : ℕ → Bytes → Option (ℕ × ℕ)
three_bytes a (b ∷ d ∷ rest) =
    let c = (a - 0xe0) * 4096 + (b - 0x80) * 64 + (d - 0x80) in
    if is_tail b && (is_tail d && (leb 0x800 c && not (is_surrogate c))) then some (c, 2) else none
three_bytes a _ = none

abbrev four_bytes : ℕ → Bytes → Option (ℕ × ℕ)
four_bytes a (b ∷ d ∷ e ∷ rest) =
    let c = (a - 0xf0) * 262144 + (b - 0x80) * 4096 + (d - 0x80) * 64 + (e - 0x80) in
    if is_tail b && (is_tail d && (is_tail e && (leb 0x10000 c && ltb c 0x110000)))
    then some (c, 3)
    else none
four_bytes a _ = none

unfoldable pub decode_char : ℕ → Bytes → Option (ℕ × ℕ)
decode_char b rest =
    if ltb b 0x80
    then some (b, 0)
    else if ltb b 0xc0
    then none
    else if ltb b 0xe0
    then two_bytes b rest
    else if ltb b 0xf0
    then three_bytes b rest
    else if ltb b 0xf8
    then four_bytes b rest
    else none

-- Decoding behind `skip` continuation bytes that were read with their leading byte.
unfoldable pub decode_from : ℕ → Bytes → Option Text
unfolding decode_char
decode_from skip [] = some []
decode_from (suc skip) (b ∷ bs) = decode_from skip bs
decode_from zero (b ∷ bs) = elim (decode_char b bs) [
  | none ↦ none
  | some (c, size) ↦ Option.map (◌∷◌ c) (decode_from size bs)
]

-- `none` is UnicodeDecodeError.
unfoldable pub utf8_decode : Bytes → Option Text
unfolding decode_from
utf8_decode = decode_from 0

-- `none` is UnicodeEncodeError.
unfoldable pub utf8_encode : Text → Option Bytes
unfolding encode_char
utf8_encode [] = some []
utf8_encode (c ∷ cs) = join_bytes (encode_char c) (utf8_encode cs)
