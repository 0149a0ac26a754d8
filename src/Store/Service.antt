-- ===== src/Store/Service.antt =====
-- pkg/files/store/store.go: the store of files: `Open`, `Key`, and the workers that prefetch.
pub mod Peers
use peerd_oci.Files.{file_chunk_key, cache_block_size}
use peerd_oci.Strings.{parse_int, split}
use peerd_oci.Context.{Context, get_string, file_chunk_ctx_key, is_request_from_a_peer}
use peerd_oci.Cache.SyncMap.{SyncMap}
use peerd_oci.Reader.{Network}
use peerd_oci.Int64.{ℤ, pos}
use peerd_oci.Cache.FileCache.{Blocks, exists}
use peerd_oci.Prelude.{
  Bytes, List, blocked, Outcome, panic, ◌∷◌, if◌then◌else◌, Bool, [], ok, ltb, length, ◌++◌, true,
  not, not_exist, false,
}
use peerd_oci.Action.{raise, Action, ◌>>=◌, ◌>>◌, attempt, lift, failed, pure, done, raise, modify}
use peerd_oci.Store.File.{
  Session, PrefetchableSegment, get_block, blobs_capacity, on_cache, fstat, start_prefetch,
}

-- The name and the offset in a key; a key without an underscore makes `tokens[1]` panic.
unfoldable pub key_parts : List Bytes → Outcome (Bytes × ℤ)
key_parts [] = panic
key_parts (name ∷ []) = panic
key_parts (name ∷ offset ∷ rest) = ok (name, (parse_int offset).0)

module _ (B : Blocks) (N : Network) (path node : Bytes) (order : SyncMap ℤ → List Bytes) where
  -- `s.blobsChan <- key`.
  unfoldable pub send_blob : Bytes → Action (Session B.State N.State) (Unit {0})
  send_blob key s =
      if ltb (length s.blobs) blobs_capacity
      then (ok tt, record s { blobs = s.blobs ++ key ∷ [] })
      else (blocked, s)

  -- One round of `prefetch` of the store, on a segment that a worker received.
  unfoldable pub prefetch_segment :
      PrefetchableSegment → Action (Session B.State N.State) (Unit {0})
  prefetch_segment p = do
    answer ← attempt (get_block B N path node order p.name p.reader p.offset p.count)
    elim answer [
      | failed e ↦ pure tt
      | done block ↦ do
        key ← lift (file_chunk_key p.name p.offset (pos cache_block_size))
        send_blob key
    ]

  -- A worker waits for a segment.
  unfoldable pub prefetch_next : Action (Session B.State N.State) (Unit {0})
  prefetch_next s = elim s.queue [
    | [] ↦ (blocked, s)
    | p ∷ ps ↦ prefetch_segment p (record s { queue = ps })
  ]

  -- `Open`, which leaves its file in the state.
  unfoldable pub open_store : Bool → Context → Action (Session B.State N.State) (Unit {0})
  open_store prefetchable c = do
    (name, aligned) ← lift (key_parts (split b'_' (get_string file_chunk_ctx_key c)))
    present ←
        (if is_request_from_a_peer c
          then on_cache B N path node order (exists B path name aligned)
          else pure true)
    if not present then raise not_exist else do
      modify (λ s. record s {
        file = record {
          name = name;
          cur = pos 0;
          size = pos 0;
          stat_locked = false;
          chunk_offset = if is_request_from_a_peer c then aligned else pos 0;
          reader = c;
        };
      })
      answer ← attempt (fstat B N path node order)
      if prefetchable
          then start_prefetch B N path node order (pos 0)
              (elim answer [ done n ↦ n | failed e ↦ pos 0 ])
          else pure tt
      elim answer [ done n ↦ pure tt | failed e ↦ raise e ]
