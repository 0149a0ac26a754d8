-- ===== src/Store/File/Reads/Warm.antt =====
-- Reading on in a file whose blocks are in the cache.
use peerd_oci.Store.File.Reads.Provided.{seek-read_on-Provides}
use peerd_oci.Store.File.Reads.{read_on, cursor, Provides, with_cache, block_call}
use peerd_oci.Store.File.ReadAt.{block_end, start-le-stop, stop-le}
use peerd_oci.Cache.FileCache.Hit.{Holds, get_or_create_hit}
use peerd_oci.Math.Align.{block_start, block_start-le}
use peerd_oci.Os.{File}
use peerd_oci.Store.File.{Session, cache_block_size, seek, seek_start, fetch_file}
use peerd_oci.Int64.{ℤ, pos}
use peerd_oci.Cache.SyncMap.{SyncMap}
use peerd_oci.Reader.{Network}
use peerd_oci.Cache.FileCache.{Blocks, get_key, metainfo_key, get_or_create}
use peerd_oci.Prelude.{
  ◌≤◌, ap, ◌≡◌, Bytes, List, ℕ, ◌<◌, length, ◌^◌, some, ◌+◌, ◌≤◌, slice, ok, arith, ◌-◌,
  length-slice, ◌∙◌, ap, subst, sym, refl, inl, inr,
}
use peerd_oci.Cache.SyncMap
use peerd_oci.Action.{◌>>◌}
use peerd_oci.Cache.FileCache.Hit.{Holds}

module _ (B : Blocks) (N : Network) (path node : Bytes) (order : SyncMap ℤ → List Bytes) where
  -- Every block of a file with the bytes `d` is in the cache, in order.
  abbrev pub AllCached : Session B.State N.State → Bytes → Type 0
  AllCached s d =
      (offset : ℕ)
      → offset < length d
      → (p : ℕ) × (f : File) × (B.get
            (get_key path s.file.name (pos (block_start offset cache_block_size))) s.cache.blocks
          ≡ some p)
        × Holds s.cache p f (
            slice d (block_start offset cache_block_size)
              (block_end (block_start offset cache_block_size) (length d)))

  -- Such a cache provides the blocks, and stays as it is.
  AllCached-Provides :
      (s : Session B.State N.State) (d : Bytes)
      → AllCached s d
      → Provides B N path node order s.file.name s.file.reader d (λ w. w ≡ s.cache) ⊥
  AllCached-Provides s d cached w same o inside =
      let (p, f, found, holds) = cached o inside in
      let start = block_start o cache_block_size in
      let n = length d in
      let le : start ≤ n = omega (arith, block_start-le o cache_block_size, inside) in
      let size : length (slice d start (block_end start n)) ≡ block_end start n - start =
        length-slice d start (block_end start n) (start-le-stop start n le) (stop-le start n) in
      (
        w,
        inl (
            subst
              (λ v.
                block_call B N path node order s.file.name s.file.reader d o v
                ≡ (ok (slice d start (block_end start n)), v))
              (sym same)
              (ap
                  (λ m.
                    get_or_create B path s.file.name (pos start) (pos m)
                      (fetch_file N node s.file.reader (pos start)
                        (pos (block_end start n - start)))
                      s.cache)
                  (sym size)
                ∙ get_or_create_hit B path s.cache p f (slice d start (block_end start n)) holds
                    s.file.name (pos start) _ found)),
        same,
        refl,
      )

  -- A file whose blocks and size are in the cache behaves as its bytes with a cursor: a client that
  -- seeks to `a` and reads on, with buffers of at most `most` bytes, until it has `left` bytes, gets
  -- the bytes of the file from `a` to `a + left`, in as many calls of `Read` or fewer, and the cursor
  -- stands behind them. Blocks, disk, network and locks stay as they are. The range lies in the file,
  -- whose size is below 2^62, and the file is not opened for one block only.
  pub read_on-slice :
      (s : Session B.State N.State) (d : Bytes) (a most left : ℕ)
      → length d < 2 ^ 62
      → s.file.size ≡ pos (length d)
      → SyncMap.get (metainfo_key s.file.name) s.cache.sizes ≡ some (pos (length d))
      → s.file.chunk_offset ≡ pos 0
      → AllCached s d
      → 0 < most
      → a + left ≤ length d
      → (seek B N path node order (pos a) seek_start >> read_on B N path node order left most left)
          s
        ≡ (ok (slice d a (a + left)), cursor B N path node order (length d) (a + left) s)
  read_on-slice s d a most left small size known any cached some_room fits =
      let (w', reads, same) =
        seek-read_on-Provides B N path node order s d (λ w. w ≡ s.cache) ⊥ small any
          (AllCached-Provides s d cached) a most left known refl size some_room fits in
      elim reads [ inl good ↦ good | inr (never, _, _) ↦ absurd never ]
      ∙ ap
          (λ w. (
            ok (slice d a (a + left)),
            cursor B N path node order (length d) (a + left) (with_cache B N path node order w s),
          ))
          same
