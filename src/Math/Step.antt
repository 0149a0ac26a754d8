-- ===== src/Math/Step.antt =====
-- The steps that `NewSegments` accepts.
use peerd_oci.Int64.Laws.{add64-pos}
use Prim.Native.Nat.{min}
use peerd_oci.Math.{new_segments, min64}
use peerd_oci.Int64.{ℤ, and64, pos, sub64, lt64, wrap64}
use peerd_oci.Prelude.{
  ℕ, suc, zero, Bool, ◌<◌, true, ◌≡◌, ◌+◌, ◌&&◌, arith, ◌^◌, false, not, ok, refl,
}

pub min64-pos : (a b : ℕ) → min64 (pos a) (pos b) ≡ pos (min a b)
unfolding min64
min64-pos a b = ground arith

up_to : (ℕ → Bool) → ℕ → Bool
up_to test zero = true
up_to test (suc most) = up_to test most && test most

up_to_sound : (test : ℕ → Bool) (most i : ℕ) → i < most → up_to test most ≡ true → test i ≡ true
unfolding up_to
up_to_sound test zero i small all_hold = absurd (omega arith)
up_to_sound test (suc most) i small all_hold = ground (arith, up_to_sound test most i)

-- `step & (step - 1)` of a power of two.
abbrev shared_bits : ℕ → ℤ
shared_bits k = and64 (pos (2 ^ k)) (sub64 (pos (2 ^ k)) (pos 1))

shared_bits_table : up_to (λ k. not (lt64 (pos 0) (shared_bits k))) 62 ≡ true
unfolding up_to and64 sub64 wrap64
shared_bits_table = refl

shared_bits-pow : (k : ℕ) → k < 62 → lt64 (pos 0) (shared_bits k) ≡ false
shared_bits-pow k h =
    let e = up_to_sound (λ k. not (lt64 (pos 0) (shared_bits k))) 62 k h shared_bits_table in
    ground arith

-- `NewSegments` accepts every power of two below 2^62 as the step.
pub new_segments-pow :
    (o k count size : ℕ)
    → k < 62
    → o + count < 2 ^ 63
    → new_segments (pos o) (pos (2 ^ k)) (pos count) (pos size)
      ≡ ok (record { offset = pos o; step = pos (2 ^ k); size = pos (min (o + count) size) })
unfolding new_segments
new_segments-pow o k count size small big =
    rw (shared_bits-pow k small, add64-pos o count big, min64-pos)
