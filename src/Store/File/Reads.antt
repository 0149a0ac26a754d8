-- ===== src/Store/File/Reads.antt =====
-- Reading on: `Seek` and `Read` of file.go against a file as bytes with a cursor.
pub mod Provided
pub mod Warm
pub mod Transparent
pub mod Fresh
use peerd_oci.Int64.Laws.{add64-pos}
use peerd_oci.Action.Steps.{bind-ok, bind-err}
use peerd_oci.Cache.FileCache.Hit.{Holds}
use peerd_oci.Math.Align.{block_start, lt-block_start-add}
use peerd_oci.Cache.FileCache.{get_key, metainfo_key, get_or_create}
use peerd_oci.Os.{File}
use peerd_oci.Prelude.{
  take, drop, take_of_length-le, length-drop, take-drop_append, length-slice, slice-slice, inl,
  Bytes, ℕ, if◌then◌else◌, ◌≤◌, leb, length, slice, ◌++◌, List, ◌≡◌, ◌<◌, ◌-◌, length-slice, [],
  arith, ◌^◌, slice-slice, suc, ◌∙◌, some, zero, ap, ◌+◌, false, ok, sym, le→ltb_false, refl, ◌⊎◌,
  Error, err, Outcome, subst, inr, read_at_failed,
}
use peerd_oci.Cache.SyncMap
use peerd_oci.Cache.SyncMap.{SyncMap}
use peerd_oci.Action.{Action, pure, ◌>>=◌, gets, wait_for_ever, ◌>>◌}
use peerd_oci.Store.File.{
  read_at, Session, read, Blocks, Network, ℤ, pos, file_state, advance, cache_block_size, add64,
  seek, seek_start, Context, World, get_block, fetch_file, on_cache,
}
use peerd_oci.Store.File.ReadAt.{
  block_end, read_end, read_at-cached, lt-stop, stop-le, read_at-no_block, read_at-block,
}

-- The smaller of two numbers.
abbrev pub least : ℕ → ℕ → ℕ
least a b = if leb a b then a else b

-- Two slices that meet.
pub slice-append :
    (d : Bytes) (a b c : ℕ)
    → a ≤ b
    → b ≤ c
    → c ≤ length d
    → slice d a b ++ slice d b c ≡ slice d a c
slice-append d a b c h i j =
    let whole : length (slice d a c) ≡ c - a = length-slice d a c (omega arith) j in
    let front : slice (slice d a c) 0 (b - a) ≡ slice d a b =
      slice-slice d a c 0 (b - a) (omega arith) (omega arith)
      ∙ ap (λ x. slice d x (a + (b - a))) (omega arith)
      ∙ ap (slice d a) (omega arith) in
    let back : slice (slice d a c) (b - a) (c - a) ≡ slice d b c =
      slice-slice d a c (b - a) (c - a) (omega arith) (omega arith)
      ∙ ap (λ x. slice d x (a + (c - a))) (omega arith)
      ∙ ap (slice d b) (omega arith) in
    let x = slice d a c in
    ap (λ y. y ++ slice d b c) (sym front)
    ∙ ap (λ y. slice x 0 (b - a) ++ y) (sym back)
    ∙ ap (λ m. take m x ++ slice x (b - a) (c - a)) (omega arith)
    ∙ ap (λ y. take (b - a) x ++ y)
        (take_of_length-le (c - a - (b - a)) (drop (b - a) x)
          (omega (arith, length-drop (b - a) x, whole)))
    ∙ take-drop_append (b - a) x

-- A read ends in the file, and not before it starts.
pub read_end-bounds :
    (a k n : ℕ)
    → a < n
    → (a ≤ read_end a k n)
      × (read_end a k n ≤ n)
      × (read_end a k n ≤ a + k)
      × (0 < k → a < read_end a k n)
read_end-bounds a k n inside =
    let start = block_start a cache_block_size in
    let lt : a < start + cache_block_size = lt-block_start-add a cache_block_size (omega arith) in
    let stop = lt-stop start a n lt inside in let most = stop-le start n in ground arith

module _ (B : Blocks) (N : Network) (path node : Bytes) (order : SyncMap ℤ → List Bytes) where
  -- A client that reads on until it has `left` bytes, with buffers of at most `most` bytes. Each call
  -- that succeeds reads some byte, so as much fuel as bytes is enough.
  unfoldable pub read_on : ℕ → ℕ → ℕ → Action (Session B.State N.State) Bytes
  read_on fuel most zero = pure []
  read_on zero most (suc left) = wait_for_ever
  read_on (suc fuel) most (suc left) = do
    ret ← read B N path node order (pos (least most (suc left)))
    rest ← read_on fuel most (suc left - length ret.data_read)
    pure (ret.data_read ++ rest)

  -- The state with the cursor at `c`, the size of the file being `n`.
  abbrev pub cursor : ℕ → ℕ → Session B.State N.State → Session B.State N.State
  cursor n c s = record s { file = record s.file { cur = pos c; size = pos n } }

  -- What `GetOrCreate` of the block of the offset `o` does with the reader of the request `c`.
  abbrev pub block_call : Bytes → Context → Bytes → ℕ → Action (World B.State N.State) Bytes
  block_call name c d o =
      let start = block_start o cache_block_size in
      let count = block_end start (length d) - start in
      get_or_create B path name (pos start) (pos count)
        (fetch_file N node c (pos start) (pos count))

  -- From states with a property, the blocks of the file `name` come with the bytes `d`, or not if
  -- they may fail, and the property stays.
  abbrev pub Provides : Bytes → Context → Bytes → (World B.State N.State → Type 0) → Type 0 → Type 0
  Provides name c d Inv MayFail =
      (w : World B.State N.State)
      → Inv w
      → (o : ℕ) → o < length d
      → (w' : World B.State N.State) × ((block_call name c d o w ≡ (
        ok (
            slice d (block_start o cache_block_size)
              (block_end (block_start o cache_block_size) (length d))),
        w',
      ))
          ⊎ (MayFail × (x : Error) × (block_call name c d o w ≡ (err x, w'))))
        × Inv w'
        × (w'.sizes ≡ w.sizes)

  -- The state with another state of the cache.
  abbrev pub with_cache : World B.State N.State → Session B.State N.State → Session B.State N.State
  with_cache w s = record s { cache = w }
