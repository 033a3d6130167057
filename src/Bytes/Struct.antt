-- ===== src/Bytes/Struct.antt =====
-- A packed format is read back field by field, whatever bytes follow it.
use pinetime_dev_tools.Prelude.{
  ℕ, ◌+◌, List, [], ◌∷◌, ◌++◌, map, Option, none, some, length, take, drop, length-append,
  take-append_self, drop-append_self, append_assoc, ◌≡◌, refl, ap, ◌∙◌, arith,
}
use pinetime_dev_tools.Prelude.Int.{ℤ, pos}
use pinetime_dev_tools.Bytes.{Bytes, le_value, pack_uint, join_bytes, pack, unpack}
use pinetime_dev_tools.Bytes.Layout.{Packed, pack_uint-Packed, length-le_bytes, le_value-le_bytes}

abbrev pub widths : List (ℕ × ℤ) → List ℕ
widths [] = []
widths ((w, z) ∷ fields) = w ∷ widths fields

abbrev pub values : List (ℕ × ℤ) → List ℤ
values [] = []
values ((w, z) ∷ fields) = z ∷ values fields

abbrev pub total : List ℕ → ℕ
total [] = 0
total (w ∷ ws) = w + total ws

pub join_bytes-eq-some :
    (a b : Option Bytes) {bs : Bytes}
    → join_bytes a b ≡ some bs
    → (xs : Bytes) × (ys : Bytes) × (a ≡ some xs) × (b ≡ some ys) × (bs ≡ xs ++ ys)
join_bytes-eq-some (some xs) (some ys) h = (xs, ys, refl, refl, cc)
join_bytes-eq-some (some xs) none h = cc
join_bytes-eq-some none b h = cc

-- The first field of what `unpack` reads, and the rest, when the first is packed at the front.
unpack-le_bytes :
    (w : ℕ) (z : ℤ) (ws : List ℕ) {front : Bytes} (back : Bytes)
    → Packed w z front
    → map pos (unpack (w ∷ ws) (front ++ back)) ≡ z ∷ map pos (unpack ws back)
unpack-le_bytes w z ws {front} back p = rw (take_front, drop_front, value_back, p.is_pos)
  where
    width_is : length front ≡ w
    width_is = rw p.is_le (length-le_bytes w p.value)

    take_front : take w (front ++ back) ≡ front
    take_front = rw width_is at (take-append_self front back)

    drop_front : drop w (front ++ back) ≡ back
    drop_front = rw width_is at (drop-append_self front back)

    value_back : le_value front ≡ p.value
    value_back = rw p.is_le (le_value-le_bytes w p.value p.fits)

-- Every field comes back, and the packed length is the sum of the widths.
pub unpack-pack :
    (fields : List (ℕ × ℤ)) {bs : Bytes} (back : Bytes)
    → pack fields ≡ some bs
    → map pos (unpack (widths fields) (bs ++ back)) ≡ values fields
unpack-pack [] back h = refl
unpack-pack ((w, z) ∷ fields) back h =
    let (xs, ys, hx, hy, e) = join_bytes-eq-some (pack_uint w z) (pack fields) h in
    rw (e, append_assoc)
      (unpack-le_bytes w z (widths fields) (ys ++ back) (pack_uint-Packed w z hx)
        ∙ ap (◌∷◌ z) (unpack-pack fields back hy))

pub length-pack :
    (fields : List (ℕ × ℤ)) {bs : Bytes} → pack fields ≡ some bs → length bs ≡ total (widths fields)
length-pack [] h = rw (← cc_nil h)
  where
    cc_nil : {bs : Bytes} → some [] ≡ some bs → [] ≡ bs
    cc_nil e = cc
length-pack ((w, z) ∷ fields) h =
    let (xs, ys, hx, hy, e) = join_bytes-eq-some (pack_uint w z) (pack fields) h in
    let p = pack_uint-Packed w z hx in
    rw e (
      omega (
        arith,
        length-append xs ys,
        length-pack fields hy,
        ap length p.is_le,
        length-le_bytes w p.value,
      ))
