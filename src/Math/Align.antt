-- ===== src/Math/Align.antt =====
-- `AlignDown` on offsets that are not negative: the start of the block that holds the offset.
use peerd_oci.Prelude.{ℕ, ◌+◌, ◌*◌, ◌/◌, ◌^◌, ◌≤◌, ◌<◌, ◌≡◌, ok, arith}
use peerd_oci.Int64.{pos}
use peerd_oci.Int64.Laws.{div64-pos, mul64-pos}
use peerd_oci.Math.{align_down}

-- The start of the block.
abbrev pub block_start : ℕ → ℕ → ℕ
block_start x align = x / align * align

pub block_start-le : (x align : ℕ) → block_start x align ≤ x
block_start-le x align = grind arith

pub lt-block_start-add : (x align : ℕ) → 0 < align → x < block_start x align + align
lt-block_start-add x align h = grind arith

div_unique : (x align q : ℕ) → q * align ≤ x → x < q * align + align → x / align ≡ q
div_unique x align q h k = grind arith

pub align_down-pos :
    (x align : ℕ)
    → 0 < align
    → x < 2 ^ 63
    → align_down (pos x) (pos align) ≡ ok (pos (block_start x align))
unfolding align_down
align_down-pos x align h k =
    ground (arith, div64-pos x align h, mul64-pos (x / align) align, block_start-le x align)

pub block_start-eq :
    (x align q : ℕ) → q * align ≤ x → x < q * align + align → block_start x align ≡ q * align
block_start-eq x align q h k = grind (arith, div_unique x align q)

-- A multiple of the block size starts its own block.
pub block_start-mul : (q align : ℕ) → 0 < align → block_start (q * align) align ≡ q * align
block_start-mul q align h = grind arith

-- The start of a block is its own start.
pub block_start_idem :
    (x align : ℕ) → 0 < align → block_start (block_start x align) align ≡ block_start x align
block_start_idem x align h = block_start-mul (x / align) align h
