-- ===== src/Cache/Threads.antt =====
-- pkg/cache/filecache.go: `GetOrCreate` as several threads run it, for one block. A step is what one
-- thread does between two points where others may come in: a call of the library's cache, a lock taken
-- or given back, a call on the file, or the fetch. The library keeps the items that it takes, and the
-- calls on the file do not fail.
pub mod Invariant
pub mod SingleFlight
pub mod Progress
use peerd_oci.Prelude.{
  ℕ, Bytes, Bool, true, false, Option, some, none, if◌then◌else◌, ◌≡◌, [], ◌==◌, ◌+◌, length, ◌≢◌,
  ◌-◌, replicate, ◌++◌,
}

-- A cached item: the contents of its file, the offset of the next write, and its lock. `writing` holds
-- from the time that a call of `Lock` waits for the readers: `sync.RWMutex` lets no more readers in
-- then, and no second writer.
pub record Block : Type 0 where
  pub body : Bytes
  pub position : ℕ
  pub readers : ℕ
  pub writing : Bool

-- What the threads share: the item under the key in the library's cache, all items by their number,
-- and the lock of the cache. `fetches` counts the fetches that returned the block.
pub record Shared : Type 0 where
  pub item : Option ℕ
  pub blocks : ℕ → Block
  pub made : ℕ
  pub cache_locked : Bool
  pub fetches : ℕ

-- Where a thread stands in `GetOrCreate`, with its item.
pub data Pc : Type 0 where
  start : Pc  -- before the first `Get`
  waiting : Pc  -- before `c.lock.Lock()`
  finding : Pc  -- under the lock of the cache, before the second `Get`
  making : Pc  -- under the lock of the cache, before `newItem` and `Set`
  leaving : ℕ → Pc  -- under the lock of the cache, before it is given back
  found : ℕ → Pc  -- before the first `RLock()`
  checking : ℕ → Pc  -- under the read lock, before `Stat`
  upgrading : ℕ → Pc  -- before `Lock()`
  locking : ℕ → Pc  -- in `Lock()`, while it waits for the readers
  rechecking : ℕ → Pc  -- under the write lock, before the second `Stat`
  fetching : ℕ → Pc  -- under the write lock, in `fetch`
  filling : ℕ → Bytes → Pc  -- under the write lock, before `writeAll`
  rereading : ℕ → Pc  -- before the second `RLock()`
  reading : ℕ → Pc  -- under the read lock, before `bytes`
  returned : Bytes → Pc
  failed : Pc

abbrev pub put : (ℕ → Block) → ℕ → Block → ℕ → Block
put f p b q = if p == q then b else f q

abbrev pub put_pc : (ℕ → Pc) → ℕ → Pc → ℕ → Pc
put_pc f i c j = if i == j then c else f j

abbrev pub set_block : Shared → ℕ → Block → Shared
set_block m p b = record m { blocks = put m.blocks p b }

abbrev pub lock_for_writing : Shared → ℕ → Bool → Shared
lock_for_writing m p b = set_block m p (record (m.blocks p) { writing = b })

abbrev pub count_readers : Shared → ℕ → ℕ → Shared
count_readers m p n = set_block m p (record (m.blocks p) { readers = n })

-- One step of one thread that asks for `count` bytes.
pub data Move (count : ℕ) (m : Shared) : Pc → Shared → Pc → Type 0 where
  hit : {p : ℕ} → m.item ≡ some p → Move count m start m (found p)
  miss : m.item ≡ none → Move count m start m waiting
  lock_cache :
      m.cache_locked ≡ false → Move count m waiting (record m { cache_locked = true }) finding
  found_again : {p : ℕ} → m.item ≡ some p → Move count m finding m (leaving p)
  not_found : m.item ≡ none → Move count m finding m making
  -- The file may be one that an earlier process left behind.
  make :
      (left : Bytes)
      → Move count m making
          (record m {
            item = some m.made;
            blocks =
                put m.blocks m.made
                  (record { body = left; position = 0; readers = 0; writing = false });
            made = m.made + 1;
          })
          (leaving m.made)
  make_fails : Move count m making (record m { cache_locked = false }) failed
  unlock_cache : {p : ℕ} → Move count m (leaving p) (record m { cache_locked = false }) (found p)
  lock_to_read :
      {p : ℕ}
      → (m.blocks p).writing ≡ false
      → Move count m (found p) (count_readers m p ((m.blocks p).readers + 1)) (checking p)
  same_size : {p : ℕ} → length (m.blocks p).body ≡ count → Move count m (checking p) m (reading p)
  other_size :
      {p : ℕ}
      → length (m.blocks p).body ≢ count
      → Move count m (checking p) (count_readers m p ((m.blocks p).readers - 1)) (upgrading p)
  begin_lock :
      {p : ℕ}
      → (m.blocks p).writing ≡ false
      → Move count m (upgrading p) (lock_for_writing m p true) (locking p)
  lock_to_write : {p : ℕ} → (m.blocks p).readers ≡ 0 → Move count m (locking p) m (rechecking p)
  same_size_now :
      {p : ℕ}
      → length (m.blocks p).body ≡ count
      → Move count m (rechecking p) (lock_for_writing m p false) (rereading p)
  still_other_size :
      {p : ℕ} → length (m.blocks p).body ≢ count → Move count m (rechecking p) m (fetching p)
  -- `FetchFile` returns as many bytes as it was asked for, or an error.
  fetch :
      {p : ℕ} (b : Bytes)
      → length b ≡ count
      → Move count m (fetching p) (record m { fetches = m.fetches + 1 }) (filling p b)
  fetch_fails : {p : ℕ} → Move count m (fetching p) (lock_for_writing m p false) failed
  write_all :
      {p : ℕ} {b : Bytes}
      → Move count m
          (filling p b)
          (set_block m p (record (m.blocks p) {
            body = replicate (m.blocks p).position 0 ++ b;
            position = (m.blocks p).position + length b;
            writing = false;
          }))
          (rereading p)
  lock_to_reread :
      {p : ℕ}
      → (m.blocks p).writing ≡ false
      → Move count m (rereading p) (count_readers m p ((m.blocks p).readers + 1)) (reading p)
  read_bytes :
      {p : ℕ}
      → length (m.blocks p).body ≡ count
      → Move count m
          (reading p)
          (count_readers m p ((m.blocks p).readers - 1))
          (returned (m.blocks p).body)
  read_other :
      {p : ℕ}
      → length (m.blocks p).body ≢ count
      → Move count m (reading p) (count_readers m p ((m.blocks p).readers - 1)) failed

pub record System : Type 0 where
  pub mem : Shared
  pub pc : ℕ → Pc

pub data Step (count : ℕ) (s : System) : System → Type 0 where
  pick :
      (i : ℕ) {m : Shared} {p : Pc}
      → Move count s.mem (s.pc i) m p
      → Step count s (record { mem = m; pc = put_pc s.pc i p })

-- An empty cache, and threads that all begin.
abbrev pub empty : Shared
empty = record {
  item = none;
  blocks = λ p. record { body = []; position = 0; readers = 0; writing = false };
  made = 0;
  cache_locked = false;
  fetches = 0;
}

pub data Reach (count : ℕ) : System → Type 0 where
  begin : Reach count (record { mem = empty; pc = λ i. start })
  later : {s t : System} → Reach count s → Step count s t → Reach count t
