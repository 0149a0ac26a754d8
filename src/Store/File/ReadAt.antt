-- ===== src/Store/File/ReadAt.antt =====
-- `ReadAt` of file.go on a block that is in the cache.
use peerd_oci.Action.Steps.{bind-ok, attempt-ok, attempt-err}
use peerd_oci.Store.File.Fstat.{sized, fstat-known}
use peerd_oci.Cache.FileCache.Hit.{Holds, get_or_create_hit}
use peerd_oci.Os.{File}
use peerd_oci.Action.{◌>>=◌, lift, gets, pure, attempt, raise, Action, Attempt, failed, done}
use peerd_oci.Cache.FileCache.{metainfo_key, get_key}
use peerd_oci.Cache.SyncMap.{SyncMap}
use peerd_oci.Int64.Laws.{sub64-pos, add64-pos, lt64-pos}
use peerd_oci.Math.{min64, align_down}
use peerd_oci.Math.Align.{block_start, block_start-le, lt-block_start-add, align_down-pos}
use peerd_oci.Store.File.Copy.{copy_out-eq}
use peerd_oci.Prelude.{
  ◌⊎◌, inl, inr, Bytes, ℕ, if◌then◌else◌, leb, ◌+◌, ◌≤◌, ◌<◌, ◌^◌, length, slice, ◌≡◌, ◌-◌, ok,
  arith, ltb, length-slice, ap, inl, ◌∙◌, inr, List, some, ◌⊎◌, refl, not, ◌&&◌, sym, false, ◌≢◌,
  err, only_single_chunk, true, Bool, Outcome, Error, read_at_failed,
}
use peerd_oci.Cache.SyncMap
use peerd_oci.Store.File.{
  Session, read_at, min64, copy_out, cache_block_size, pos, sub64, Blocks, Network, ℤ, pure,
  file_state, gets, lift, fstat, get_block, eq64, on_cache, lt64, ReadResult, add64,
}

-- The end of the block at `start` in a file of `n` bytes.
abbrev pub block_end : ℕ → ℕ → ℕ
block_end start n = if leb (start + cache_block_size) n then start + cache_block_size else n

-- The end of what a read of `k` bytes at `offset` gets: not behind the end of the block.
abbrev pub read_end : ℕ → ℕ → ℕ → ℕ
read_end offset k n =
    let stop = block_end (block_start offset cache_block_size) n in
    if leb (offset + k) stop then offset + k else stop

count-eq :
    (start n : ℕ)
    → start ≤ n
    → n < 2 ^ 62
    → min64 (pos cache_block_size) (sub64 (pos n) (pos start)) ≡ pos (block_end start n - start)
unfolding min64
count-eq start n h small = ground (arith, sub64-pos n start h)

-- The guard of a file that serves one block only.
guard-open :
    (chunk : ℤ) (start : ℕ)
    → (chunk ≡ pos 0) ⊎ (chunk ≡ pos start)
    → (not (eq64 chunk (pos 0)) && not (eq64 (pos start) chunk)) ≡ false
guard-open chunk start (inl e) = rw e refl
guard-open chunk start (inr e) = rw e (ground arith)

pub start-le-stop : (start n : ℕ) → start ≤ n → start ≤ block_end start n
start-le-stop start n h = ground arith

pub stop-le : (start n : ℕ) → block_end start n ≤ n
stop-le start n = ground arith

pub lt-stop :
    (start offset n : ℕ)
    → offset < start + cache_block_size
    → offset < n
    → offset < block_end start n
lt-stop start offset n h k = ground arith

module _ (B : Blocks) (N : Network) (path node : Bytes) (order : SyncMap ℤ → List Bytes)
    (s : Session B.State N.State) (d : Bytes) (small : length d < 2 ^ 62)
    (known : SyncMap.get (metainfo_key s.file.name) s.cache.sizes ≡ some (pos (length d)))
    (offset : ℕ) (inside : offset < length d) where
  -- The block of the offset.
  abbrev pub start : ℕ
  start = block_start offset cache_block_size

  abbrev pub stop : ℕ
  stop = block_end start (length d)

  get_block-cached :
      (p : ℕ) (f : File)
      → B.get (get_key path s.file.name (pos start)) s.cache.blocks ≡ some p
      → Holds s.cache p f (slice d start stop)
      → get_block B N path node order s.file.name s.file.reader
          (pos start)
          (pos (stop - start))
          (sized B N path node order (pos (length d)) s)
        ≡ (ok (slice d start stop), sized B N path node order (pos (length d)) s)
  unfolding get_block on_cache
  get_block-cached p f found holds =
      let t = sized B N path node order (pos (length d)) s in
      let le : start ≤ length d = omega (arith, block_start-le offset cache_block_size) in
      let size : length (slice d start stop) ≡ stop - start =
        length-slice d start stop (start-le-stop start (length d) le) (stop-le start (length d)) in
      let name = s.file.name in
      let c = s.file.reader in
      ap (λ n. get_block B N path node order name c (pos start) n t) (ap pos (sym size))
      ∙ ap (λ r. (r.0, record t { cache = r.1 }))
          (get_or_create_hit B path s.cache p f (slice d start stop) holds name (pos start) _ found)

  -- The call of the cache, and what is made of its answer.
  abbrev block_of : Action (Session B.State N.State) Bytes
  block_of =
      get_block B N path node order s.file.name s.file.reader (pos start) (pos (stop - start))

  abbrev copy_block : ℕ → Attempt Bytes → Action (Session B.State N.State) ReadResult
  copy_block k answer = elim answer [
    | failed e ↦ raise read_at_failed
    | done block ↦ do
      copied ← lift (copy_out (pos k) block (sub64 (pos offset) (pos start)))
      pure (record {
        data_read = copied;
        at_end = lt64 (pos (length d)) (add64 (pos offset) (pos k));
      })
  ]

  read_at-asks :
      (k : ℕ)
      → (s.file.chunk_offset ≡ pos 0) ⊎ (s.file.chunk_offset ≡ pos start)
      → read_at B N path node order (pos k) (pos offset) s
        ≡ (attempt block_of >>= copy_block k) (sized B N path node order (pos (length d)) s)
  unfolding read_at pure file_state gets lift raise
  read_at-asks k chunk =
      let t = sized B N path node order (pos (length d)) s in
      let le : start ≤ offset = block_start-le offset cache_block_size in
      let name = s.file.name in
      let c = s.file.reader in
      bind-ok (fstat B N path node order) _ s
        (fstat-known B N path node order s (pos (length d)) known)
      ∙ bind-ok (file_state B N path node order) _ t refl
      ∙ bind-ok (lift (align_down (pos offset) (pos cache_block_size))) _ t
          (ap (λ r. (r, t)) (align_down-pos offset cache_block_size (omega arith) (omega arith)))
      ∙ rw (guard-open s.file.chunk_offset start chunk) (
          ap
            (λ n. (attempt (get_block B N path node order name c (pos start) n) >>= copy_block k) t)
            (count-eq start (length d) (omega (arith, le, inside)) small))

  -- A read of a block that `GetOrCreate` returns with the file's bytes.
  pub read_at-block :
      (k : ℕ) (t' : Session B.State N.State)
      → k < 2 ^ 62
      → (s.file.chunk_offset ≡ pos 0) ⊎ (s.file.chunk_offset ≡ pos start)
      → block_of (sized B N path node order (pos (length d)) s) ≡ (ok (slice d start stop), t')
      → read_at B N path node order (pos k) (pos offset) s ≡ (
        ok (record {
          data_read = slice d offset (read_end offset k (length d));
          at_end = ltb (length d) (offset + k);
        }),
        t',
      )
  unfolding pure lift
  read_at-block k t' few chunk block =
      let t = sized B N path node order (pos (length d)) s in
      let le : start ≤ offset = block_start-le offset cache_block_size in
      let lt : offset < start + cache_block_size =
        lt-block_start-add offset cache_block_size (omega arith) in
      let copied : Bool → Outcome ReadResult × Session B.State N.State = λ e. (
        ok (record { data_read = slice d offset (read_end offset k (length d)); at_end = e }),
        t',
      ) in
      read_at-asks k chunk
      ∙ bind-ok (attempt block_of) _ t (attempt-ok block_of t block)
      ∙ bind-ok (lift (copy_out (pos k) (slice d start stop) (sub64 (pos offset) (pos start)))) _ t'
          (ap (λ r. (r, t'))
            (copy_out-eq d start stop offset k le (lt-stop start offset (length d) lt inside)
              (stop-le start (length d)) small))
      ∙ ap (λ e. copied (lt64 (pos (length d)) e)) (add64-pos offset k (omega arith))
      ∙ ap copied (lt64-pos (length d) (offset + k))

  -- A read of a block that `GetOrCreate` does not return.
  pub read_at-no_block :
      (k : ℕ) (t' : Session B.State N.State) (x : Error)
      → (s.file.chunk_offset ≡ pos 0) ⊎ (s.file.chunk_offset ≡ pos start)
      → block_of (sized B N path node order (pos (length d)) s) ≡ (err x, t')
      → read_at B N path node order (pos k) (pos offset) s ≡ (err read_at_failed, t')
  unfolding raise
  read_at-no_block k t' x chunk block =
      let t = sized B N path node order (pos (length d)) s in
      read_at-asks k chunk ∙ bind-ok (attempt block_of) _ t (attempt-err block_of t block)

  -- A file whose size is in the cache, and the block of `offset` with the file's bytes, is read
  -- without the network: `ReadAt` copies the bytes of the file from `offset` to the end of the
  -- buffer, of the block or of the file, whichever comes first, and reports the end of the file
  -- just if the buffer reaches behind it. The offset lies in the file, sizes are below 2^62, the
  -- item of the block is not locked and the disk in order, and a file that serves one block only
  -- is asked for that block.
  pub read_at-cached :
      (k p : ℕ) (f : File)
      → k < 2 ^ 62
      → (s.file.chunk_offset ≡ pos 0) ⊎ (s.file.chunk_offset ≡ pos start)
      → B.get (get_key path s.file.name (pos start)) s.cache.blocks ≡ some p
      → Holds s.cache p f (slice d start stop)
      → read_at B N path node order (pos k) (pos offset) s ≡ (
        ok (record {
          data_read = slice d offset (read_end offset k (length d));
          at_end = ltb (length d) (offset + k);
        }),
        sized B N path node order (pos (length d)) s,
      )
  read_at-cached k p f few chunk found holds =
      read_at-block k (sized B N path node order (pos (length d)) s) few chunk
        (get_block-cached p f found holds)

module _ (B : Blocks) (N : Network) (path node : Bytes) (order : SyncMap ℤ → List Bytes) where
  -- A file that serves one block only, and not the first one, refuses to read at an offset in another
  -- block: it asks neither the cache for the block nor the network. The size of the file is in the
  -- cache.
  pub read_at-other_block :
      (s : Session B.State N.State) (size : ℤ) (chunk k offset : ℕ)
      → SyncMap.get (metainfo_key s.file.name) s.cache.sizes ≡ some size
      → s.file.chunk_offset ≡ pos chunk
      → 0 < chunk
      → offset < 2 ^ 63
      → block_start offset cache_block_size ≢ chunk
      → read_at B N path node order (pos k) (pos offset) s
        ≡ (err only_single_chunk, sized B N path node order size s)
  unfolding read_at file_state gets lift raise
  read_at-other_block s size chunk k offset known serves later small other =
      let t = sized B N path node order size s in
      let start = block_start offset cache_block_size in
      let closed : (not (eq64 s.file.chunk_offset (pos 0))
            && not (eq64 (pos start) s.file.chunk_offset))
          ≡ true =
        rw serves (ground arith) in
      bind-ok (fstat B N path node order) _ s (fstat-known B N path node order s size known)
      ∙ bind-ok (file_state B N path node order) _ t refl
      ∙ bind-ok (lift (align_down (pos offset) (pos cache_block_size))) _ t
          (ap (λ r. (r, t)) (align_down-pos offset cache_block_size (omega arith) small))
      ∙ rw closed
