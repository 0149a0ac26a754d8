-- ===== src/Store/Advertised.antt =====
-- From the prefetch of a block on one node to the request of a peer for it.
use peerd_oci.Prelude.{
  Bytes, List, ℕ, ◌++◌, ◌≡◌, ◌∷◌, [], ◌<◌, length, some, ok, true, ◌∙◌, ap, lt→ltb, false, none,
  ◌^◌, arith, refl,
}
use peerd_oci.Store.Service.{key_parts, send_blob, prefetch_segment}
use peerd_oci.Store.File.{Session, get_block, on_cache, PrefetchableSegment, blobs_capacity}
use peerd_oci.Files.{file_chunk_key, fetch_file, cache_block_size}
use peerd_oci.Files.Key.{file_chunk_key-split}
use peerd_oci.Cache.FileCache.{get_key, exists, Blocks}
use peerd_oci.Cache.FileCache.Hit.{exists_hit}
use peerd_oci.Cache.FileCache.Miss.{get_or_create_new, made, made-Holds, new_file}
use peerd_oci.Cache.FileCache.Fetch.{refilled, refilled-Holds, moved}
use peerd_oci.Cache.Item.{World}
use peerd_oci.Cache.SyncMap.{SyncMap}
use peerd_oci.Strings.{split, format_int}
use peerd_oci.Strings.Split.{Lacks}
use peerd_oci.Math.Align.{block_start}
use peerd_oci.Reader.{Network}
use peerd_oci.Context.{Context}
use peerd_oci.Int64.{ℤ, pos}
use peerd_oci.Prelude.Dict
use peerd_oci.Action.{attempt, lift}
use peerd_oci.Action.Steps.{bind-ok, attempt-ok}

module _ (B : Blocks) (N : Network) (path node : Bytes) (order : SyncMap ℤ → List Bytes)
    (name : Bytes) (o n : ℕ) (c : Context) (b : Bytes) (r : B.State) (e : N.State)
    (s : Session B.State N.State) where
  -- The cache once the block is in it.
  abbrev stored : World B.State N.State
  stored =
      refilled s.cache.next_item (new_file (get_key path name (pos o)) s.cache.disk)
        (made B path s.cache (get_key path name (pos o)) r) b e

  abbrev sent : Bytes
  sent = name ++ b'_' ∷ format_int (pos (block_start o cache_block_size))

  abbrev segment : PrefetchableSegment
  segment = record { name = name; offset = pos o; count = pos n; reader = c }

  stored-exists :
      s.cache.disk.faults ≡ []
      → 0 < length b
      → B.get (get_key path name (pos o)) r ≡ some s.cache.next_item
      → exists B path name (pos o) stored ≡ (ok true, stored)
  stored-exists calm some_bytes kept =
      let k = get_key path name (pos o) in
      let f = new_file k s.cache.disk in
      let m = made B path s.cache k r in
      let holds = refilled-Holds s.cache.next_item f m b e (made-Holds B path s.cache k r calm) in
      exists_hit B path stored s.cache.next_item (moved s.cache.next_item f m b e) b holds name
        (pos o) kept
      ∙ ap (λ x. (ok x, stored)) (lt→ltb 0 (length b) some_bytes)

  -- What the worker leaves behind.
  abbrev prefetched : Session B.State N.State
  prefetched = record s { cache = stored; blobs = s.blobs ++ sent ∷ [] }

  prefetch_segment-prefetched :
      get_block B N path node order name c (pos o) (pos n) s ≡ (ok b, record s { cache = stored })
      → file_chunk_key name (pos o) (pos cache_block_size) ≡ ok sent
      → length s.blobs < blobs_capacity
      → prefetch_segment B N path node order segment s ≡ (ok tt, prefetched)
  unfolding prefetch_segment send_blob lift
  prefetch_segment-prefetched got named room =
      let t = record s { cache = stored } in
      bind-ok (attempt (get_block B N path node order name c (pos o) (pos n))) _ s
        (attempt-ok (get_block B N path node order name c (pos o) (pos n)) s got)
      ∙ bind-ok (lift (file_chunk_key name (pos o) (pos cache_block_size))) _ t
          (ap (λ k. (k, t)) named)
      ∙ rw (lt→ltb (length s.blobs) blobs_capacity room)

  -- A worker that prefetches a block which is neither in the cache nor on the disk fetches it, and puts
  -- one key behind those that wait to be advertised. Split as `Open` does it, this key gives the name and
  -- the offset of the block, and under these `Exists` finds the block, so that a peer which asks for the
  -- key is not refused. Nobody holds the lock of the cache, the disk is in order, the library takes the
  -- item and keeps it, and there is room for the key; the block starts at a multiple of the block size,
  -- the fetch returns as many bytes as the segment has, at least one, and the name has no underscore.
  pub prefetch_segment-exists :
      s.cache.locked ≡ false
      → s.cache.disk.faults ≡ []
      → B.get (get_key path name (pos o)) s.cache.blocks ≡ none
      → Dict.lookup (get_key path name (pos o)) s.cache.disk.names ≡ none
      → B.set (get_key path name (pos o)) s.cache.next_item s.cache.blocks ≡ (true, r)
      → B.get (get_key path name (pos o)) r ≡ some s.cache.next_item
      → fetch_file N node c (pos o) (pos n) s.cache.env ≡ (ok b, e)
      → length b ≡ n
      → 0 < n
      → Lacks b'_' name
      → block_start o cache_block_size ≡ o
      → o < 2 ^ 63
      → length s.blobs < blobs_capacity
      → (t : Session B.State N.State) × (k : Bytes) × (prefetch_segment B N path node order segment
            s
          ≡ (ok tt, t))
        × (t.blobs ≡ s.blobs ++ k ∷ [])
        × (key_parts (split b'_' k) ≡ ok (name, pos o))
        × (exists B path name (pos o) t.cache ≡ (ok true, t.cache))
  unfolding get_block on_cache key_parts
  prefetch_segment-exists free calm missing absent taken kept fetched size some_bytes plain aligned
        small room =
      let (named, parted, parsed) =
        file_chunk_key-split name o cache_block_size plain (omega arith) small in
      let stored_now =
        get_or_create_new B path s.cache name (pos o) n (fetch_file N node c (pos o) (pos n)) b e r
          free calm missing absent taken fetched size some_bytes in
      let split_key : key_parts (split b'_' sent) ≡ ok (name, pos o) =
        ap key_parts parted
        ∙ ap (λ x. ok (name, x.0)) parsed
        ∙ ap (λ x. ok (name, pos x)) aligned in
      (
        prefetched,
        sent,
        prefetch_segment-prefetched (ap (λ x. (x.0, record s { cache = x.1 })) stored_now) named
            room,
        refl,
        split_key,
        stored-exists calm (omega (arith, size)) kept,
      )
