-- ===== src/Bytes.antt =====
-- The byte strings of src/ptlab/wire.py and src/ptlab/gatt.py: `struct` formats without padding
-- ("<H", "<I" and sequences of these), `bytes((...))`, and slice assignment on a `bytearray`.
-- A byte string is a list of numbers below 256; `struct.error` is `none` in `pack_uint`.
pub mod Layout
pub mod Struct
use pinetime_dev_tools.Prelude.{
  ℕ, zero, suc, ◌+◌, ◌*◌, ◌/◌, ◌%◌, ◌<◌, List, [], ◌∷◌, ◌++◌, Option, none, some, ltb,
  if◌then◌else◌, length, take, drop, get_or, All, ◌≡◌, refl, arith, ◌^◌,
}
use pinetime_dev_tools.Prelude.Int.{ℤ, pos, negsuc}

abbrev pub Bytes : Type 0
Bytes = List ℕ

abbrev pub IsBytes : Bytes → Type 0
IsBytes = All (λ b. b < 256)

-- `width` little-endian bytes of a number.
abbrev pub le_bytes : ℕ → ℕ → Bytes
le_bytes zero n = []
le_bytes (suc w) n = n % 256 ∷ le_bytes w (n / 256)

-- struct.pack of one unsigned field; out of range is `struct.error`.
abbrev pub pack_uint : ℕ → ℤ → Option Bytes
pack_uint width (pos n) = if ltb n (256 ^ width) then some (le_bytes width n) else none
pack_uint width (negsuc n) = none

abbrev pub join_bytes : Option Bytes → Option Bytes → Option Bytes
join_bytes (some xs) (some ys) = some (xs ++ ys)
join_bytes _ _ = none

-- struct.pack of a format, given as the width and the value of each field.
abbrev pub pack : List (ℕ × ℤ) → Option Bytes
pack [] = some []
pack ((width, z) ∷ fields) = join_bytes (pack_uint width z) (pack fields)

-- struct.unpack of one unsigned field.
abbrev pub le_value : Bytes → ℕ
le_value [] = 0
le_value (b ∷ bs) = b + 256 * le_value bs

-- struct.unpack of a format, given as the widths of its fields.
abbrev pub unpack : List ℕ → Bytes → List ℕ
unpack [] bs = []
unpack (w ∷ ws) bs = le_value (take w bs) ∷ unpack ws (drop w bs)

-- struct.unpack_from of an unsigned field of `width` bytes at an offset that is in range.
abbrev pub uint_at : ℕ → ℕ → Bytes → ℕ
uint_at width offset bs = le_value (take width (drop offset bs))

-- record[offset : offset + len(bs)] = bs, within the record.
abbrev pub overwrite : ℕ → Bytes → Bytes → Bytes
overwrite offset bs record_bytes =
    take offset record_bytes ++ (bs ++ drop (offset + length bs) record_bytes)
