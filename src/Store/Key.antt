-- ===== src/Store/Key.antt =====
-- pkg/files/store/store.go: the key that a request asks for.
use peerd_oci.Int64.{pos}
use peerd_oci.Files.{file_chunk_key, cache_block_size}
use peerd_oci.Http.{header_get}
use peerd_oci.Urlparser.{parse_digest}
use peerd_oci.Context.{Context, blob_url, range_start_index}
use peerd_oci.Prelude.{
  panic, blocked, ok, err, Bytes, ◌>>=◌, Outcome, ok, err, [], if◌then◌else◌, bytes_eq, codes,
  panic,
}

-- `Key`: the key of the block that a request asks for, and the digest of its URL. The error of the
-- digest is kept only where the range is not looked at.
unfoldable pub store_key : Context → Outcome (Bytes × Bytes)
store_key c =
    let parsed = parse_digest (blob_url c) in
    let d : Bytes = elim parsed [ ok d ↦ d | err e ↦ [] | panic ↦ [] | blocked ↦ [] ] in
    if bytes_eq c.method (codes "GET")
    then (do
      start ← range_start_index (header_get (codes "Range") c.header)
      key ← file_chunk_key d start (pos cache_block_size)
      ok (key, d))
    else do key ← file_chunk_key d (pos 0) (pos cache_block_size); _ ← parsed; ok (key, d)
