-- ===== src/Store/File/Copy.antt =====
-- What `ReadAt` copies out of a block.
use peerd_oci.Int64.Laws.{sub64-pos}
use peerd_oci.Math.{min_int}
use peerd_oci.Store.File.{copy_out, min_int, pos, sub64}
use peerd_oci.Prelude.{
  Bytes, ℕ, inl, inr, if◌then◌else◌, ◌≤◌, ltb, ◌<◌, length, ◌-◌, ◌^◌, ◌+◌, slice, ◌≡◌, ok, leb,
  arith, length-slice, Bool-cases, ap, ◌∙◌, slice-slice,
}

-- How much is copied.
abbrev copied_length : Bytes → ℕ → ℕ → ℕ
copied_length b m k = if ltb k (length b - m) then k else length b - m

copy_out-pos :
    (b : Bytes) (m k : ℕ)
    → m ≤ length b
    → length b < 2 ^ 62
    → copy_out (pos k) b (pos m) ≡ ok (slice b m (m + copied_length b m k))
unfolding copy_out min_int
copy_out-pos b m k h small =
    rw (sub64-pos (length b) m h (omega arith)) (elim (Bool-cases (ltb k (length b - m))) [
      | inl less ↦ ground arith
      | inr more ↦ ground arith
    ])

copied_length-eq :
    (d : Bytes) (start stop offset k : ℕ)
    → start ≤ offset
    → offset < stop
    → stop ≤ length d
    → start + (offset - start + copied_length (slice d start stop) (offset - start) k)
      ≡ (if leb (offset + k) stop then offset + k else stop)
copied_length-eq d start stop offset k h i j =
    ground (arith, length-slice {A = ℕ} d start stop (omega arith) j)

pub copy_out-eq :
    (d : Bytes) (start stop offset k : ℕ)
    → start ≤ offset
    → offset < stop
    → stop ≤ length d
    → length d < 2 ^ 62
    → copy_out (pos k) (slice d start stop) (sub64 (pos offset) (pos start))
      ≡ ok (slice d offset (if leb (offset + k) stop then offset + k else stop))
copy_out-eq d start stop offset k h i j small =
    let b = slice d start stop in
    let m = offset - start in
    let size : length b ≡ stop - start = length-slice d start stop (omega arith) j in
    ap (copy_out (pos k) b) (sub64-pos offset start h (omega arith))
    ∙ copy_out-pos b m k (omega (arith, size)) (omega (arith, size))
    ∙ ap ok (
        slice-slice d start stop m (m + copied_length b m k) (omega arith) (ground (arith, size))
        ∙ ap (λ a. slice d a (start + (m + copied_length b m k))) (omega arith)
        ∙ ap (slice d offset) (copied_length-eq d start stop offset k h i j))
