-- ===== src/Prelude/Int.antt =====
-- Python integers, where the source tests their sign or subtracts.
use Prim.Native.Nat.{ℕ, zero, suc, ◌+◌, ◌-◌, ◌*◌, ◌/◌}
use mathlib.Core.Bool.{Bool, true, false, ◌&&◌}
use pinetime_dev_tools.Prelude.Tests.{leb, ltb, if◌then◌else◌}

-- `negsuc n` is -(n + 1).
pub data ℤ : Type 0 where
  pos : ℕ → ℤ
  negsuc : ℕ → ℤ

-- lo <= z <= hi, for bounds that are not negative.
abbrev pub between : ℕ → ℕ → ℤ → Bool
between lo hi (pos n) = leb lo n && leb n hi
between lo hi (negsuc n) = false

-- a - b, as an integer.
abbrev pub sub_ℕ : ℕ → ℕ → ℤ
sub_ℕ a b = if leb b a then pos (a - b) else negsuc (b - a - 1)

abbrev pub is_positive : ℤ → Bool
is_positive (pos n) = ltb 0 n
is_positive (negsuc n) = false

-- a + b
abbrev pub add_ℤ : ℤ → ℤ → ℤ
add_ℤ (pos a) (pos b) = pos (a + b)
add_ℤ (pos a) (negsuc b) = sub_ℕ a (b + 1)
add_ℤ (negsuc a) (pos b) = sub_ℕ b (a + 1)
add_ℤ (negsuc a) (negsuc b) = negsuc (a + b + 1)

abbrev pub negate_ℕ : ℕ → ℤ
negate_ℕ zero = pos zero
negate_ℕ (suc n) = negsuc n

-- a * b
abbrev pub mul_ℤ : ℤ → ℤ → ℤ
mul_ℤ (pos a) (pos b) = pos (a * b)
mul_ℤ (pos a) (negsuc b) = negate_ℕ (a * (b + 1))
mul_ℤ (negsuc a) (pos b) = negate_ℕ ((a + 1) * b)
mul_ℤ (negsuc a) (negsuc b) = pos ((a + 1) * (b + 1))

-- a // 2, which rounds down.
abbrev pub half : ℤ → ℤ
half (pos n) = pos (n / 2)
half (negsuc n) = negsuc (n / 2)

-- bool(z)
abbrev pub is_nonzero : ℤ → Bool
is_nonzero (pos n) = ltb 0 n
is_nonzero (negsuc n) = true
