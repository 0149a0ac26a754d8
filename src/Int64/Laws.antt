-- ===== src/Int64/Laws.antt =====
-- On values that are not negative and below 2^63 the operations are those of the numbers.
use peerd_oci.Prelude.{
  ℕ, zero, suc, ◌+◌, ◌-◌, ◌*◌, ◌/◌, ◌^◌, ◌≤◌, ◌<◌, ◌≡◌, refl, some, arith, ltb, true,
}
use peerd_oci.Int64.{ℤ, pos, negsuc, wrap64, add64, sub64, mul64, div64, sub_ℕ, eq64, lt64}

pub wrap64-pos : (n : ℕ) → n < 2 ^ 63 → wrap64 (pos n) ≡ pos n
unfolding wrap64
wrap64-pos n h = ground arith

pub wrap64-negsuc : (n : ℕ) → n < 2 ^ 63 → wrap64 (negsuc n) ≡ negsuc n
unfolding wrap64
wrap64-negsuc n h = ground arith

sub_ℕ-zero : (a : ℕ) → sub_ℕ a 0 ≡ pos a
sub_ℕ-zero a = ground arith

pub add64-pos : (a b : ℕ) → a + b < 2 ^ 63 → add64 (pos a) (pos b) ≡ pos (a + b)
unfolding add64
add64-pos a b h = ground (arith, wrap64-pos (a + b) h)

pub sub64-pos : (a b : ℕ) → b ≤ a → a < 2 ^ 63 → sub64 (pos a) (pos b) ≡ pos (a - b)
unfolding sub64
sub64-pos a b h k = ground (arith, wrap64-pos (a - b))

pub mul64-pos : (a b : ℕ) → a * b < 2 ^ 63 → mul64 (pos a) (pos b) ≡ pos (a * b)
unfolding mul64
mul64-pos a b h = ground (arith, wrap64-pos (a * b) h)

pub div64-pos : (a b : ℕ) → 0 < b → div64 (pos a) (pos b) ≡ some (pos (a / b))
unfolding div64
div64-pos a zero h = absurd (omega arith)
div64-pos a (suc b) h = refl

pub eq64_refl : (a : ℤ) → eq64 a a ≡ true
eq64_refl a = ground arith

pub eq64_sound : (a b : ℤ) → eq64 a b ≡ true → a ≡ b
eq64_sound a b h = ground arith

pub lt64-pos : (a b : ℕ) → lt64 (pos a) (pos b) ≡ ltb a b
lt64-pos a b = ground arith

overflow : add64 (pos (2 ^ 63 - 1)) (pos 1) ≡ negsuc (2 ^ 63 - 1)
unfolding add64 wrap64
overflow = refl

truncated : div64 (negsuc 6) (pos 4) ≡ some (negsuc 0)
unfolding div64
truncated = refl
