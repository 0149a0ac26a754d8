-- ===== src/Store/File.antt =====
-- pkg/files/store/file.go: a file that is read from the store of files. One thread
-- runs; the goroutines of a prefetch leave their segments in a queue, and the workers are steps of
-- their own. A file is shared by pointer: it stands in the state, with the store.
pub mod Fstat
pub mod Copy
pub mod ReadAt
pub mod Reads
pub mod Serves
pub mod Bounds
use peerd_oci.Files.{fetch_file, cache_block_size}
use peerd_oci.Cache.SyncMap.{SyncMap}
use peerd_oci.Reader.{Network, fstat_remote}
use peerd_oci.Math.{min_int, align_down, new_segments, all, min64}
use peerd_oci.Cache.FileCache.{Blocks, size, get_or_create, put_size}
use peerd_oci.Context.{Context}
use peerd_oci.Cache.Item.{World, on_env}
use peerd_oci.Int64.{ℤ, negsuc, pos, sub64, add64, lt64, eq64, pos_part}
use peerd_oci.Prelude.{
  Bytes, ℕ, Bool, Error, blocked, List, Outcome, bad_request, length, if◌then◌else◌, ok, true,
  false, [], ◌++◌, ◌||◌, ◌∷◌, panic, not, slice, ◌&&◌, map, ◌+◌, only_single_chunk, read_at_failed,
}
use peerd_oci.Action.{◌>>=◌, ◌>>◌, Action, gets, lift, pure, attempt, modify, failed, raise, done}

-- A part of a file to prefetch.
pub record PrefetchableSegment : Type 0 where
  pub name : Bytes
  pub offset : ℤ
  pub count : ℤ
  pub reader : Context

-- `file`: its reader is that of the request `reader`.
pub record OpenFile : Type 0 where
  pub name : Bytes
  pub cur : ℤ
  pub size : ℤ
  pub stat_locked : Bool
  pub chunk_offset : ℤ
  pub reader : Context

-- The store, whose cache fetches from the network, and a file of it. `blobs` is the channel of the
-- keys to advertise, `queue` that of the segments to prefetch, and `started` the goroutines of
-- `prefetch` on the file that did not run yet, by their arguments.
pub record Session (R S : Type 0) : Type 0 where
  pub cache : World R S
  pub queue : List PrefetchableSegment
  pub blobs : List Bytes
  pub started : List (ℤ × ℤ)
  pub file : OpenFile

pub data Whence : Type 0 where
  seek_start seek_current seek_end seek_other : Whence

-- The bytes that a read copied, and whether it returns `io.EOF` with them.
pub record ReadResult : Type 0 where
  pub data_read : Bytes
  pub at_end : Bool

-- The capacity of `blobsChan`.
abbrev pub blobs_capacity : ℕ
blobs_capacity = 1000

-- The size that `FstatRemote` returns beside an error.
unfoldable pub size_on_error : Error → ℤ
size_on_error bad_request = negsuc 0
size_on_error e = pos 0

-- `data[pos:pos+ret]` for what fits into the buffer; a slice out of range panics.
unfoldable pub copy_out : ℤ → Bytes → ℤ → Outcome Bytes
copy_out buff_len block from =
    let ret = min_int buff_len (sub64 (pos (length block)) from) in
    if lt64 ret (pos 0) || lt64 from (pos 0)
    then panic
    else ok (slice block (pos_part from) (pos_part from + pos_part ret))

-- `c` is the interface of the cache's library, `order` the order in which the sizes are ranged over.
module _ (B : Blocks) (N : Network) (path node : Bytes) (order : SyncMap ℤ → List Bytes) where
  -- A call of the cache.
  unfoldable pub on_cache :
      {A : Type 0} → Action (World B.State N.State) A → Action (Session B.State N.State) A
  on_cache call s = let (r, w) = call s.cache in (r, record s { cache = w })

  unfoldable pub file_state : Action (Session B.State N.State) OpenFile
  file_state = gets (λ s. s.file)

  unfoldable pub set_size : ℤ → Action (Session B.State N.State) (Unit {0})
  set_size n s = (ok tt, record s { file = record s.file { size = n } })

  unfoldable pub lock_stat : Action (Session B.State N.State) (Unit {0})
  lock_stat s = elim s.file.stat_locked [
    | true ↦ (blocked, s)
    | false ↦ (ok tt, record s { file = record s.file { stat_locked = true } })
  ]

  unfoldable pub unlock_stat : Action (Session B.State N.State) (Unit {0})
  unlock_stat s = (ok tt, record s { file = record s.file { stat_locked = false } })

  -- `f.reader.FstatRemote()`.
  unfoldable pub remote_size : Context → Action N.State ℤ
  remote_size c net =
      let (r, call) = fstat_remote N node c (record { net = net; buf = [] }) in (r, call.net)

  -- `Seek`.
  unfoldable pub seek : ℤ → Whence → Action (Session B.State N.State) ℤ
  seek offset whence s =
      let f = s.file in
      let cur : ℤ = elim whence [
        | seek_current ↦ add64 f.cur offset
        | seek_start ↦ offset
        | seek_end ↦ f.size
        | seek_other ↦ f.cur
      ] in
      (ok cur, record s { file = record f { cur = cur } })

  -- The part of `Fstat` under its lock. An error leaves the lock held.
  unfoldable pub fstat_locked : OpenFile → Action (Session B.State N.State) ℤ
  fstat_locked f = do
    lock_stat
    (n, hit) ← on_cache (size B path f.name)
    set_size n
    if hit then (do unlock_stat; pure n) else do
      answer ← attempt (on_cache (on_env (remote_size f.reader)))
      elim answer [
        | failed e ↦ do set_size (size_on_error e); raise e
        | done m ↦ do
          set_size m
          on_cache (λ w. put_size B path (order w.sizes) f.name m w)
          unlock_stat
          pure m
      ]

  -- `Fstat`.
  unfoldable pub fstat : Action (Session B.State N.State) ℤ
  fstat = do
    f ← file_state
    (n, hit) ← on_cache (size B path f.name)
    set_size n
    if hit then pure n else fstat_locked f

  -- `GetOrCreate` on a block of a file, which is fetched by the reader of `c`.
  unfoldable pub get_block : Bytes → Context → ℤ → ℤ → Action (Session B.State N.State) Bytes
  get_block name c aligned count =
      on_cache (get_or_create B path name aligned count (fetch_file N node c aligned count))

  -- `ReadAt`, into a buffer of the given length.
  unfoldable pub read_at : ℤ → ℤ → Action (Session B.State N.State) ReadResult
  read_at buff_len offset = do
    file_size ← fstat
    f ← file_state
    aligned ← lift (align_down offset (pos cache_block_size))
    if not (eq64 f.chunk_offset (pos 0)) && not (eq64 aligned f.chunk_offset)
        then raise only_single_chunk
        else do
          let count = min64 (pos cache_block_size) (sub64 file_size aligned)
          answer ← attempt (get_block f.name f.reader aligned count)
          elim answer [
            | failed e ↦ raise read_at_failed
            | done block ↦ do
              copied ← lift (copy_out buff_len block (sub64 offset aligned))
              pure (record { data_read = copied; at_end = lt64 file_size (add64 offset buff_len) })
          ]

  unfoldable pub advance : ℤ → Action (Session B.State N.State) (Unit {0})
  advance n s = (ok tt, record s { file = record s.file { cur = add64 s.file.cur n } })

  -- `Read`: at the end of the file the offset stays.
  unfoldable pub read : ℤ → Action (Session B.State N.State) ReadResult
  read buff_len = do
    f ← file_state
    ret ← read_at buff_len f.cur
    if ret.at_end then pure ret else do advance (pos (length ret.data_read)); pure ret

  -- `prefetch` of a file starts a goroutine, and `run_prefetch` is what it does.
  unfoldable pub start_prefetch : ℤ → ℤ → Action (Session B.State N.State) (Unit {0})
  start_prefetch offset count s = (ok tt, record s { started = s.started ++ (offset, count) ∷ [] })

  unfoldable pub run_prefetch : ℕ → ℤ → ℤ → Action (Session B.State N.State) (Unit {0})
  run_prefetch fuel offset count = do
    file_size ← fstat
    f ← file_state
    segs ← lift (new_segments offset (pos cache_block_size) count file_size)
    sent ← lift (all fuel segs)
    modify (λ s. record s {
      queue =
          s.queue
          ++ map
              (λ seg. record {
                name = f.name;
                offset = seg.index;
                count = seg.count;
                reader = f.reader;
              })
              sent;
    })
