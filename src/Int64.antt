-- ===== src/Int64.antt =====
-- Go's `int64` (and `int`, which has 64 bits on the targets of the build): integers with the
-- wrap-around of two's complement written out. Division by zero is `none`, the run-time panic.
pub mod Laws
use peerd_oci.Prelude.{
  ℕ, zero, suc, ◌+◌, ◌-◌, ◌*◌, ◌/◌, ◌%◌, ◌^◌, Bool, Option, none, some, ltb, leb, ◌==◌,
  if◌then◌else◌,
}
use Prim.Native.Nat.{bit_and}

-- `negsuc n` is -(n + 1).
pub data ℤ : Type 0 where
  pos : ℕ → ℤ
  negsuc : ℕ → ℤ

abbrev pub pos_part : ℤ → ℕ
pos_part (pos n) = n
pos_part (negsuc n) = 0

abbrev pub neg_part : ℤ → ℕ
neg_part (pos n) = 0
neg_part (negsuc n) = suc n

-- a - b, as an integer.
abbrev pub sub_ℕ : ℕ → ℕ → ℤ
sub_ℕ a b = if leb b a then pos (a - b) else negsuc (b - a - 1)

-- The value that 64 bits keep.
unfoldable pub wrap64 : ℤ → ℤ
wrap64 (pos n) = let r = n % 2 ^ 64 in if ltb r (2 ^ 63) then pos r else negsuc (2 ^ 64 - r - 1)
wrap64 (negsuc n) = let r = n % 2 ^ 64 in if ltb r (2 ^ 63) then negsuc r else pos (2 ^ 64 - r - 1)

-- `a + b`, `a - b`, `a * b`.
unfoldable pub add64 : ℤ → ℤ → ℤ
add64 a b = wrap64 (sub_ℕ (pos_part a + pos_part b) (neg_part a + neg_part b))

unfoldable pub sub64 : ℤ → ℤ → ℤ
sub64 a b = wrap64 (sub_ℕ (pos_part a + neg_part b) (neg_part a + pos_part b))

unfoldable pub mul64 : ℤ → ℤ → ℤ
mul64 a b = wrap64 (
    sub_ℕ (pos_part a * pos_part b + neg_part a * neg_part b)
      (pos_part a * neg_part b + neg_part a * pos_part b))

-- `a + b` on an `int32`.
unfoldable pub wrap32 : ℤ → ℤ
wrap32 (pos n) = let r = n % 2 ^ 32 in if ltb r (2 ^ 31) then pos r else negsuc (2 ^ 32 - r - 1)
wrap32 (negsuc n) = let r = n % 2 ^ 32 in if ltb r (2 ^ 31) then negsuc r else pos (2 ^ 32 - r - 1)

unfoldable pub add32 : ℤ → ℤ → ℤ
add32 a b = wrap32 (sub_ℕ (pos_part a + pos_part b) (neg_part a + neg_part b))

-- `a / b`: the quotient is truncated towards zero.
unfoldable pub div64 : ℤ → ℤ → Option ℤ
div64 a (pos zero) = none
div64 (pos a) (pos (suc b)) = some (pos (a / suc b))
div64 (negsuc a) (pos (suc b)) = some (sub_ℕ 0 (suc a / suc b))
div64 (pos a) (negsuc b) = some (sub_ℕ 0 (a / suc b))
div64 (negsuc a) (negsuc b) = some (wrap64 (pos (suc a / suc b)))

-- `a & b`, on the bit patterns.
to_bits : ℤ → ℕ
to_bits (pos n) = n % 2 ^ 64
to_bits (negsuc n) = 2 ^ 64 - 1 - n % 2 ^ 64

unfoldable pub and64 : ℤ → ℤ → ℤ
unfolding to_bits
and64 a b = wrap64 (pos (bit_and (to_bits a) (to_bits b)))

-- `a < b` and `a == b`.
abbrev pub lt64 : ℤ → ℤ → Bool
lt64 a b = ltb (pos_part a + neg_part b) (pos_part b + neg_part a)

abbrev pub eq64 : ℤ → ℤ → Bool
eq64 a b = pos_part a + neg_part b == pos_part b + neg_part a
