-- ===== src/Math/Cover.antt =====
-- The segments of a range cover it: one for each block that the range meets, in order.
use peerd_oci.Math.Step.{new_segments-pow}
use peerd_oci.Prelude.{
  ℕ, ◌+◌, ◌-◌, ◌^◌, ◌≤◌, ◌<◌, ◌≡◌, List, [], ◌∷◌, arith, false, ◌*◌, suc, ok, zero, true, refl, ap,
  sym, ◌>>=◌, ◌/◌, Outcome,
}
use native.Mathlib.Nat.{pow-suc}
use native.Mathlib.Decide.{dec_lt}
use Prim.Native.Nat.{min}
use peerd_oci.Int64.{pos, lt64, sub64, wrap64}
use peerd_oci.Int64.Laws.{add64-pos, sub64-pos}
use peerd_oci.Math.{Segments, Segment, segment_at, min64, max64, all_from, new_segments, all}
use peerd_oci.Math.Align.{
  block_start, block_start-eq, block_start-le, lt-block_start-add, align_down-pos,
}

-- The bytes of the block that holds `lo`, from `lo` on and before `hi`.
abbrev pub block_rest : ℕ → ℕ → ℕ → ℕ
block_rest step lo hi = min (block_start lo step + step) hi - lo

-- The range from `lo` to `hi`, cut at the multiples of `step`: each segment names the start of its
-- block, how far into the block it begins, and how many bytes it has.
abbrev pub Covers : ℕ → ℕ → ℕ → List Segment → Type 0
Covers step lo hi [] = hi ≤ lo
Covers step lo hi (s ∷ segs) =
    (lo < hi)
    × (s.index ≡ pos (block_start lo step))
    × (s.offset ≡ pos (lo - block_start lo step))
    × (s.count ≡ pos (block_rest step lo hi))
    × Covers step (lo + block_rest step lo hi) hi segs

abbrev range : ℕ → ℕ → ℕ → Segments
range o step hi = record { offset = pos o; step = pos step; size = pos hi }

-- One round at block `i`, where the bytes from `lo` on are still to be sent.
segment_at-pos :
    (o step hi i lo : ℕ)
    → hi + step < 2 ^ 63
    → i ≤ lo
    → lo < hi
    → lo ≤ i + step
    → (o ≤ i → lo ≡ i)
    → (i < o → lo ≡ o)
    → segment_at (range o step hi) (pos i)
      ≡ record { index = pos i; offset = pos (lo - i); count = pos (min (i + step) hi - lo) }
unfolding segment_at max64 min64
segment_at-pos o step hi i lo big le lt near h k =
    ground (arith, add64-pos i step, sub64-pos lo i, sub64-pos (i + step) lo, sub64-pos hi lo)

-- At or past the end of the range the loop stops.
all_from_done :
    (fuel : ℕ) (o step hi i : ℕ) → hi ≤ i → all_from (suc fuel) (range o step hi) (pos i) ≡ ok []
unfolding all_from
all_from_done fuel o step hi i h = ground arith

-- A block that ends before `offset` has no bytes to send.
segment_at_empty :
    (o step hi i : ℕ)
    → o < i + step
    → i + step < 2 ^ 63
    → hi < 2 ^ 63
    → o < 2 ^ 63
    → hi ≤ o
    → i < hi
    → lt64 (pos 0) (segment_at (range o step hi) (pos i)).count ≡ false
unfolding segment_at max64 min64 sub64 wrap64
segment_at_empty o step hi i near a b c h k = ground (arith, add64-pos i step)

-- A round that sends nothing.
all_from_skip :
    (fuel o step hi i : ℕ) (segs : List Segment)
    → i < hi
    → i + step < 2 ^ 63
    → lt64 (pos 0) (segment_at (range o step hi) (pos i)).count ≡ false
    → all_from fuel (range o step hi) (pos (i + step)) ≡ ok segs
    → all_from (suc fuel) (range o step hi) (pos i) ≡ ok segs
unfolding all_from
all_from_skip fuel o step hi i segs more big empty rest =
    rw (add64-pos i step big, rest, empty) (ground arith)

-- A round that sends the segment `seg`.
all_from_send :
    (fuel o step hi i : ℕ) (seg : Segment) (segs : List Segment)
    → i < hi
    → i + step < 2 ^ 63
    → segment_at (range o step hi) (pos i) ≡ seg
    → lt64 (pos 0) seg.count ≡ true
    → all_from fuel (range o step hi) (pos (i + step)) ≡ ok segs
    → all_from (suc fuel) (range o step hi) (pos i) ≡ ok (seg ∷ segs)
unfolding all_from
all_from_send fuel o step hi i seg segs more big same full rest =
    rw (add64-pos i step big, rest, same, full) (ground arith)

-- The last block of a range: nothing is left behind it.
all_from_last :
    (fuel o step hi q lo : ℕ)
    → 0 < step
    → o < 2 ^ 63
    → hi + step < 2 ^ 63
    → q * step ≤ lo
    → lo < q * step + step
    → (o ≤ q * step → lo ≡ q * step)
    → (q * step < o → lo ≡ o)
    → q * step < hi
    → hi ≤ q * step + step
    → (segs : List Segment) × (all_from (suc (suc fuel)) (range o step hi) (pos (q * step))
        ≡ ok segs)
      × Covers step lo hi segs
all_from_last fuel o step hi q lo pos_step ob big le lt on off more last =
    let i = q * step in
    let rest = all_from_done fuel o step hi (i + step) last in
    elim (dec_lt lo hi) [
      | yes h ↦ (
        record { index = pos i; offset = pos (lo - i); count = pos (min (i + step) hi - lo) } ∷ [],
        all_from_send (suc fuel) o step hi i _ [] more (omega arith)
            (segment_at-pos o step hi i lo big le h (omega arith) on off) (ground arith) rest,
        ground (arith, block_start-eq lo step q le lt),
      )
      | no h ↦ (
        [],
        all_from_skip (suc fuel) o step hi i [] more (omega arith)
            (segment_at_empty o step hi i (grind arith) (omega arith) (omega arith) ob (grind arith)
              more)
            rest,
        omega arith,
      )
    ]

-- The loop from block `q` on, where the bytes from `lo` on are still to be sent.
all_from-Covers :
    (fuel o step hi q lo : ℕ)
    → 0 < step
    → o < 2 ^ 63
    → hi + step < 2 ^ 63
    → q * step ≤ lo
    → lo < q * step + step
    → (o ≤ q * step → lo ≡ q * step)
    → (q * step < o → lo ≡ o)
    → hi ≤ q * step + fuel
    → (segs : List Segment) × (all_from (suc fuel) (range o step hi) (pos (q * step)) ≡ ok segs)
      × Covers step lo hi segs
all_from-Covers zero o step hi q lo pos_step ob big le lt on off enough =
    ([], all_from_done 0 o step hi (q * step) (omega arith), omega arith)
all_from-Covers (suc fuel) o step hi q lo pos_step ob big le lt on off enough =
    elim (dec_lt (q * step) hi) [
      | yes more ↦ elim (dec_lt (suc q * step) hi) [
        | yes beyond ↦
            let ih =
              all_from-Covers fuel o step hi (suc q) (suc q * step) pos_step ob big (omega arith)
                (omega arith) (λ _. refl) (grind arith) (omega arith) in
            let next : q * step + step ≡ suc q * step = omega arith in
            let here = block_start-eq lo step q le lt in
            let sent : lo + block_rest step lo hi ≡ suc q * step = ground (arith, here) in
            let inside : lo < hi = omega arith in
            (
              _ ∷ ih.0,
              all_from_send (suc fuel) o step hi (q * step) _ ih.0 more (omega arith)
                  (segment_at-pos o step hi (q * step) lo big le inside (omega arith) on off)
                  (ground arith) (rw next ih.1),
              (inside, ap pos (sym here), ground (arith, here), ground (arith, here), rw sent ih.2),
            )
        | no last ↦
            all_from_last fuel o step hi q lo pos_step ob big le lt on off more (omega arith)
      ]
      | no done ↦ ([], all_from_done (suc fuel) o step hi (q * step) (omega arith), omega arith)
    ]

two_pow_pos : (k : ℕ) → 0 < 2 ^ k
two_pow_pos zero = omega arith
two_pow_pos (suc k) = rw pow-suc (omega (arith, two_pow_pos k))

all-range :
    (fuel o step hi : ℕ) {m : Outcome (List Segment)}
    → 0 < step
    → o < 2 ^ 63
    → all_from fuel (range o step hi) (pos (block_start o step)) ≡ m
    → all fuel (range o step hi) ≡ m
unfolding all
all-range fuel o step hi pos_step big run = rw (align_down-pos o step pos_step big) run

-- For a range that starts at `o`, has `count` bytes and lies in a file of `size` bytes, and a step
-- that is a power of two below 2^62, `NewSegments` succeeds, and `All` ends and sends exactly the
-- segments that cover the bytes from `o` up to the end of the range or of the file, whichever is
-- first, cut at the multiples of the step. The condition is that no sum reaches 2^63; `size` + 1
-- rounds of fuel are enough.
pub all-Covers :
    (o k count size fuel : ℕ)
    → k < 62
    → o + count < 2 ^ 63
    → size + 2 ^ k < 2 ^ 63
    → size ≤ fuel
    → (segs : List Segment) × ((new_segments (pos o) (pos (2 ^ k)) (pos count) (pos size)
          >>= all (suc fuel))
        ≡ ok segs)
      × Covers (2 ^ k) o (min (o + count) size) segs
all-Covers o k count size fuel small big room enough =
    let hi = min (o + count) size in
    let step : ℕ = 2 ^ k in
    let pos_step : 0 < step = two_pow_pos k in
    let (segs, run, cover) =
      all_from-Covers fuel o step hi (o / step) o pos_step (omega arith) (omega arith)
        (block_start-le o step) (lt-block_start-add o step pos_step)
        (λ h. omega (arith, block_start-le o step)) (λ _. refl) (omega arith) in
    (
      segs,
      rw (new_segments-pow o k count size small big)
          (all-range (suc fuel) o step hi pos_step (omega arith) run),
      cover,
    )
