-- ===== src/Files/Key.antt =====
-- The key of a block: what stands before and behind its underscore.
use peerd_oci.Strings.Decimal.{format_int-IsDigit, parse_int-format_int}
use peerd_oci.Context.Range.{digit-Lacks}
use peerd_oci.Math.Align.{block_start, block_start-le, align_down-pos}
use peerd_oci.Strings.{format_int, split, parse_int}
use peerd_oci.Strings.Split.{Lacks, split-append, split-Lacks}
use peerd_oci.Files.{file_chunk_key, pos}
use peerd_oci.Prelude.{
  none, Bytes, ℕ, ◌<◌, ◌^◌, ◌≡◌, ok, ◌++◌, ◌∷◌, [], none, arith, ap, ◌>>=◌, codes, ◌∙◌,
}

-- The key of a block, split at the underscore as `Open` does, gives the name and the start of the
-- block, for names without an underscore and offsets that are not negative.
pub file_chunk_key-split :
    (name : Bytes) (offset block : ℕ)
    → Lacks b'_' name
    → 0 < block
    → offset < 2 ^ 63
    → (file_chunk_key name (pos offset) (pos block)
        ≡ ok (name ++ b'_' ∷ format_int (pos (block_start offset block))))
      × (split b'_' (name ++ b'_' ∷ format_int (pos (block_start offset block)))
          ≡ name ∷ format_int (pos (block_start offset block)) ∷ [])
      × (parse_int (format_int (pos (block_start offset block)))
          ≡ (pos (block_start offset block), none))
unfolding file_chunk_key
file_chunk_key-split name offset block plain positive small =
    let start = block_start offset block in
    let below : start < 2 ^ 63 = omega (arith, block_start-le offset block) in
    (
      ap (λ r. r >>= λ aligned. ok (name ++ (codes "_" ++ format_int aligned)))
          (align_down-pos offset block positive small),
      split-append b'_' name (format_int (pos start)) plain
          ∙ ap (λ x. name ∷ x)
              (split-Lacks b'_' (format_int (pos start)) (
                digit-Lacks b'_' (format_int (pos start)) (omega arith)
                  (format_int-IsDigit start))),
      parse_int-format_int start below,
    )
