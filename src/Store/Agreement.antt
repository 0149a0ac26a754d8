-- ===== src/Store/Agreement.antt =====
-- The keys of blocks: of the one that a request asks for, and of the request that a reader makes from it.
use peerd_oci.Strings.{format_int}
use peerd_oci.Math.Align.{align_down-pos, block_start}
use peerd_oci.Http.{header_get}
use peerd_oci.Files.{file_chunk_key, cache_block_size}
use peerd_oci.Urlparser.{parse_digest}
use peerd_oci.Int64.{pos}
use peerd_oci.Context.{Context, blob_url, range_start_index}
use peerd_oci.Prelude.{Bytes, ℕ, ◌<◌, ◌^◌, ◌≡◌, codes, ok, bytes_eq_refl, ◌++◌, ◌∷◌, arith}
use peerd_oci.Store.Key.{store_key}

-- The key of the block of a file that holds the offset.
abbrev pub block_key : Bytes → ℕ → Bytes
block_key d o = d ++ b'_' ∷ format_int (pos (block_start o cache_block_size))

-- The key of a GET whose URL has a digest and whose range starts at an offset below 2^63.
pub store_key-at :
    (c : Context) (d : Bytes) (start : ℕ)
    → start < 2 ^ 63
    → c.method ≡ codes "GET"
    → parse_digest (blob_url c) ≡ ok d
    → range_start_index (header_get (codes "Range") c.header) ≡ ok (pos start)
    → store_key c ≡ ok (block_key d start, d)
unfolding store_key file_chunk_key
store_key-at c d start small get parsed range =
    rw
      (parsed, get, bytes_eq_refl, range, align_down-pos start cache_block_size (omega arith) small)
