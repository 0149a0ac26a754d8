-- ===== src/Files.antt =====
-- pkg/files/files.go: the key of a block of a file in the network of peers, and the fetch of a
-- block from a remote reader.
pub mod Key
pub mod Fetch
use peerd_oci.Strings.{format_int}
use peerd_oci.Math.{align_down}
use peerd_oci.Context.{Context}
use peerd_oci.Prelude.{
  ◌>>=◌, ◌>>◌, Bytes, codes, ℕ, Outcome, Error, ◌^◌, Bool, ok, replicate, true, err, false,
  if◌then◌else◌, panic, eof, blocked, ◌++◌,
}
use peerd_oci.Action.{Action}
use peerd_oci.Int64.{ℤ, pos, negsuc}
use peerd_oci.Reader.{Network, pread_remote}

-- `CacheBlockSize`, 1 MiB.
abbrev pub cache_block_size : ℕ
cache_block_size = 2 ^ 20

-- `FileChunkKeySep` is one underscore.
unfoldable pub file_chunk_key : Bytes → ℤ → ℤ → Outcome Bytes
file_chunk_key name offset block_size = do
  aligned ← align_down offset block_size
  ok (name ++ (codes "_" ++ format_int aligned))

-- `make([]byte, count)`, which panics below zero.
unfoldable pub make_bytes : ℤ → Outcome Bytes
make_bytes (pos n) = ok (replicate n 0)
make_bytes (negsuc n) = panic

is_eof : Error → Bool
is_eof eof = true
is_eof e = false

-- What `FetchFile` makes of the read: the buffer, also at the end of the file.
unfoldable pub fetched : Outcome ℤ → Bytes → Outcome Bytes
unfolding is_eof
fetched (ok n) d = ok d
fetched (err e) d = if is_eof e then ok d else err e
fetched panic d = panic
fetched blocked d = blocked

-- `FetchFile`, with the reader of the request `c`.
unfoldable pub fetch_file : (N : Network) → Bytes → Context → ℤ → ℤ → Action N.State Bytes
fetch_file N node c offset count s = elim (make_bytes count) [
  | ok d ↦
      let (r, call) = pread_remote N node c offset (record { net = s; buf = d }) in
      (fetched r call.buf, call.net)
  | err e ↦ (err e, s)
  | panic ↦ (panic, s)
  | blocked ↦ (blocked, s)
]
