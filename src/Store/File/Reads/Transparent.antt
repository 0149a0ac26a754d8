-- ===== src/Store/File/Reads/Transparent.antt =====
-- Reading on in a file whose blocks are in the cache or not, while its servers are honest.
use peerd_oci.Reader.Honest.Loop.{fetch_file-Honest, fetch_file-Truthful}
use peerd_oci.Store.File.ReadAt.{lt-stop, stop-le}
use peerd_oci.Math.Align.{block_start-le, lt-block_start-add}
use peerd_oci.Store.File.Reads.Provided.{seek-read_on-Provides}
use peerd_oci.Store.File.Reads.{Provides, block_start, block_end, read_on, cursor, with_cache}
use peerd_oci.Reader.Honest.{Honest, Truthful}
use peerd_oci.Store.File.Serves.Fetches.{get_or_create-returns, get_or_create-fails}
use peerd_oci.Store.File.{Session, cache_block_size, World, seek, seek_start, fetch_file}
use peerd_oci.Context.{Context}
use peerd_oci.Int64.{ℤ, pos}
use peerd_oci.Cache.SyncMap.{SyncMap}
use peerd_oci.Reader.{Network}
use peerd_oci.Store.File.Serves.{Lossless, Serves}
use peerd_oci.Cache.FileCache.{Blocks, metainfo_key}
use peerd_oci.Prelude.{
  ◌⊎◌, ◌≡◌, Bytes, List, length, ℕ, ◌<◌, ◌^◌, some, ◌+◌, ◌≤◌, arith, ok, slice, ◌-◌, ◌∙◌, ap, inl,
  Outcome, err, inr, read_at_failed, refl,
}
use peerd_oci.Cache.SyncMap
use peerd_oci.Action.{◌>>◌}

module _ (B : Blocks) (lossless : Lossless B) (N : Network) (path node : Bytes)
    (order : SyncMap ℤ → List Bytes) (name : Bytes) (c : Context) (d : Bytes)
    (small : length d < 2 ^ 62) where
  abbrev count : ℕ → ℕ
  count o = let start = block_start o cache_block_size in block_end start (length d) - start

  -- The block of an offset in the file is not empty, and lies in it.
  count-bounds :
      (o : ℕ)
      → o < length d
      → (0 < count o)
        × (block_start o cache_block_size + count o
            ≡ block_end (block_start o cache_block_size) (length d))
        × (block_start o cache_block_size + count o ≤ length d)
  count-bounds o inside =
      let start = block_start o cache_block_size in
      let lo = block_start-le o cache_block_size in
      let lt =
        lt-stop start o (length d) (lt-block_start-add o cache_block_size (omega arith)) inside in
      let le = stop-le start (length d) in
      (omega (arith, lo, lt), omega (arith, lo, lt), omega (arith, lo, lt, le))

  -- A cache that serves the file, with honest servers, provides its blocks.
  Serves-Provides :
      Honest N node c d → Provides B N path node order name c d (λ w. Serves B path w name d) ⊥
  Serves-Provides honest w serves o inside =
      let start = block_start o cache_block_size in
      let (some_bytes, sum, fits) = count-bounds o inside in
      let (net, fetched) =
        fetch_file-Honest N node c d honest start (count o) w.env some_bytes fits in
      let (w', came, serves', sizes) =
        get_or_create-returns B lossless path N.State name d small o inside w serves
          (fetch_file N node c (pos start) (pos (count o))) net
          (fetched ∙ ap (λ x. (ok (slice d start x), net)) sum) in
      (w', inl came, serves', sizes)

  -- With truthful servers, it provides them or fails.
  Serves-MayProvide :
      Truthful N node c d
      → Provides B N path node order name c d (λ w. Serves B path w name d) (Unit {0})
  Serves-MayProvide truthful w serves o inside =
      let start = block_start o cache_block_size in
      let (some_bytes, sum, fits) = count-bounds o inside in
      let fetch = fetch_file N node c (pos start) (pos (count o)) in
      let (net, fetched) =
        fetch_file-Truthful N node c d truthful start (count o) w.env some_bytes fits in
      elim fetched [
        | inl good ↦
            let (w', came, serves', sizes) =
              get_or_create-returns B lossless path N.State name d small o inside w serves fetch net
                (good ∙ ap (λ x. (ok (slice d start x), net)) sum) in
            (w', inl came, serves', sizes)
        | inr (x, bad) ↦
            elim (get_or_create-fails B lossless path N.State name d small o inside w serves fetch x
              net bad) [
                | inl (w', came, serves', sizes) ↦ (w', inl came, serves', sizes)
                | inr (w', failed_so, serves', sizes) ↦ (w', inr (tt, x, failed_so), serves', sizes)
              ]
      ]

module _ (B : Blocks) (N : Network) (path node : Bytes) (order : SyncMap ℤ → List Bytes) where
  -- The cache is transparent: a client that seeks to `a` and reads on, with buffers of at most `most`
  -- bytes, until it has `left` bytes, gets the bytes of the file at the origin from `a` to `a + left`,
  -- in as many calls of `Read` or fewer, and the cursor stands behind them, whichever of the blocks are
  -- in the cache before; and the cache serves the file after it. A cache serves a file if each block
  -- of it is in the cache with the bytes of the file, or with another number of bytes and nothing
  -- written since its file was opened, as after a fetch that failed, or is not in the cache, and on the
  -- disk not at all or with the bytes of the file or another number of bytes, as after an earlier run;
  -- and the locks of the cache and of these items are free and the disk is in order. The origin has a valid URL and serves every range of the file that is not
  -- empty, each peer serves the same bytes, refuses or does not answer, and the router returns. The
  -- library takes every item and gives up none, the cache serves the file before, the size of the file
  -- is known to the cache and the file and below 2^62, the range lies in the file, and the file is not
  -- opened for one block only.
  pub read_on-transparent :
      (s : Session B.State N.State) (d : Bytes) (a most left : ℕ)
      → Lossless B
      → Honest N node s.file.reader d
      → Serves B path s.cache s.file.name d
      → length d < 2 ^ 62
      → s.file.size ≡ pos (length d)
      → SyncMap.get (metainfo_key s.file.name) s.cache.sizes ≡ some (pos (length d))
      → s.file.chunk_offset ≡ pos 0
      → 0 < most
      → a + left ≤ length d
      → (w' : World B.State N.State) × ((seek B N path node order (pos a) seek_start
              >> read_on B N path node order left most left)
            s
          ≡ (
            ok (slice d a (a + left)),
            cursor B N path node order (length d) (a + left) (with_cache B N path node order w' s),
          ))
        × Serves B path w' s.file.name d
  read_on-transparent s d a most left lossless honest serves small size known any some_room fits =
      let (w', reads, serves') =
        seek-read_on-Provides B N path node order s d (λ w. Serves B path w s.file.name d) ⊥ small
          any
          (Serves-Provides B lossless N path node order s.file.name s.file.reader d small honest) a
          most left known serves size some_room fits in
      (w', elim reads [ inl good ↦ good | inr (never, _, _) ↦ absurd never ], serves')

  -- Where servers fail: a client that seeks to `a` and reads on, as for `read_on-transparent` and under
  -- its conditions, but that the origin, too, may refuse any range or not answer, gets the bytes of the
  -- file from `a` to `a + left`, or an error. Either way the cache serves the file after it, so that
  -- no other bytes are kept and no lock is left.
  pub read_on-Truthful :
      (s : Session B.State N.State) (d : Bytes) (a most left : ℕ)
      → Lossless B
      → Truthful N node s.file.reader d
      → Serves B path s.cache s.file.name d
      → length d < 2 ^ 62
      → s.file.size ≡ pos (length d)
      → SyncMap.get (metainfo_key s.file.name) s.cache.sizes ≡ some (pos (length d))
      → s.file.chunk_offset ≡ pos 0
      → 0 < most
      → a + left ≤ length d
      → (w' : World B.State N.State) × (r : Outcome Bytes) × (cur : ℕ) × ((seek B N path node order
                (pos a)
                seek_start
              >> read_on B N path node order left most left)
            s
          ≡ (r, cursor B N path node order (length d) cur (with_cache B N path node order w' s)))
        × ((r ≡ ok (slice d a (a + left))) ⊎ (r ≡ err read_at_failed))
        × Serves B path w' s.file.name d
  read_on-Truthful s d a most left lossless truthful serves small size known any some_room fits =
      let (w', reads, serves') =
        seek-read_on-Provides B N path node order s d (λ w. Serves B path w s.file.name d)
          (Unit {0}) small any
          (Serves-MayProvide B lossless N path node order s.file.name s.file.reader d small
            truthful)
          a most left known serves size some_room fits in
      elim reads [
        | inl good ↦ (w', _, a + left, good, inl refl, serves')
        | inr (_, cur, stopped) ↦ (w', _, cur, stopped, inr refl, serves')
      ]
