-- ===== src/Bytes/Layout.antt =====
-- Reading back what was packed, and overwriting a part of a record.
use native.Mathlib.Nat.{pow-succ'}
use pinetime_dev_tools.Prelude.{
  ℕ, zero, suc, ◌+◌, ◌*◌, ◌/◌, ◌%◌, ◌^◌, ◌<◌, [], ◌∷◌, ◌++◌, length, take, drop, some, ◌≡◌, refl,
  ap, ◌∙◌, sym, arith, ltb, ltb→lt, append_assoc, take-append_self, drop-append_self, Bool-cases,
  inl, inr,
}
use pinetime_dev_tools.Prelude.Int.{ℤ, pos, negsuc}
use pinetime_dev_tools.Bytes.{Bytes, IsBytes, le_bytes, le_value, pack_uint, overwrite}

pub length-le_bytes : (w n : ℕ) → length (le_bytes w n) ≡ w
length-le_bytes zero n = refl
length-le_bytes (suc w) n = omega (arith, length-le_bytes w (n / 256))

div_below : (w n : ℕ) → n < 256 ^ suc w → n / 256 < 256 ^ w
div_below w n h = omega (arith, pow-succ' 256 w)

-- Unpacking reads back the number that was packed.
pub le_value-le_bytes : (w n : ℕ) → n < 256 ^ w → le_value (le_bytes w n) ≡ n
le_value-le_bytes zero n h = omega arith
le_value-le_bytes (suc w) n h = omega (arith, le_value-le_bytes w (n / 256) (div_below w n h))

pub le_bytes-IsBytes : (w n : ℕ) → IsBytes (le_bytes w n)
le_bytes-IsBytes zero n = tt
le_bytes-IsBytes (suc w) n = (omega arith, le_bytes-IsBytes w (n / 256))

-- What `pack_uint` returns is the little-endian form of a number in range.
pub record Packed (w : ℕ) (z : ℤ) (bs : Bytes) : Type 0 where
  pub value : ℕ
  pub is_pos : z ≡ pos value
  pub fits : value < 256 ^ w
  pub is_le : bs ≡ le_bytes w value

pub pack_uint-Packed : (w : ℕ) (z : ℤ) {bs : Bytes} → pack_uint w z ≡ some bs → Packed w z bs
pack_uint-Packed w (pos n) h = elim (Bool-cases (ltb n (256 ^ w))) [
  | inl small ↦ record {
    value = n;
    is_pos = refl;
    fits = ltb→lt _ _ small;
    is_le = cc (rw small at h);
  }
  | inr big ↦ let h' = rw big at h in cc
]
pack_uint-Packed w (negsuc n) h = cc

-- The part of a record behind `xs` that is as long as `bs` is replaced by `bs`.
pub overwrite-append :
    (xs bs ys zs : Bytes)
    → length bs ≡ length ys
    → overwrite (length xs) bs (xs ++ (ys ++ zs)) ≡ xs ++ (bs ++ zs)
overwrite-append xs bs ys zs same = rw (take-append_self xs (ys ++ zs)) (
    ap (λ t. xs ++ (bs ++ t))
      (rw same (rw (← length_both) (rw (← append_assoc) (drop-append_self (xs ++ ys) zs)))))
  where
    length_both : length (xs ++ ys) ≡ length xs + length ys
    length_both = pinetime_dev_tools.Prelude.length-append xs ys

pub overwrite_at :
    (n : ℕ) (xs bs ys zs : Bytes)
    → length xs ≡ n
    → length bs ≡ length ys
    → overwrite n bs (xs ++ (ys ++ zs)) ≡ xs ++ (bs ++ zs)
overwrite_at n xs bs ys zs e same = rw (← e) (overwrite-append xs bs ys zs same)

-- What stands behind a prefix of known length.
pub drop_behind : (n : ℕ) (xs ys : Bytes) → length xs ≡ n → drop n (xs ++ ys) ≡ ys
drop_behind n xs ys e = rw (← e) (drop-append_self xs ys)

pub take_front : (n : ℕ) (xs ys : Bytes) → length xs ≡ n → take n (xs ++ ys) ≡ xs
take_front n xs ys e = rw (← e) (take-append_self xs ys)
