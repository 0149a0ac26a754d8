-- ===== src/Cache/Threads/Invariant.antt =====
-- What holds between the steps of the threads.
pub mod Locals
pub mod Locks
pub mod Fetches
pub mod Reachable
use peerd_oci.Prelude.{ℕ, Bytes, Bool, ◌≡◌, length, Option, ◌≤◌, true, some, none, ◌⊎◌, false, ◌≢◌}
use peerd_oci.Cache.Threads.{
  Shared, Block, Pc, Move, start, hit, rechecking, miss, leaving, fetching, lock_cache, filling,
  found, found_again, checking, not_found, finding, upgrading, lock_to_read, making, same_size,
  rereading, other_size, reading, begin_lock, locking, returned, same_size_now, still_other_size,
  fetch, lock_to_reread, read_bytes,
}

abbrev pub holds_cache : Pc → Bool
holds_cache finding = true
holds_cache making = true
holds_cache (leaving p) = true
holds_cache c = false

abbrev pub writes : Pc → Bool
writes (locking p) = true
writes (rechecking p) = true
writes (fetching p) = true
writes (filling p b) = true
writes c = false

abbrev pub Own : Shared → ℕ → Type 0
Own m p = m.item ≡ some p

abbrev pub Good : ℕ → Shared → ℕ → Type 0
Good count m p = length (m.blocks p).body ≡ count

-- The contents of the item's file.
abbrev pub current : Shared → Option Bytes
current m = elim m.item [ none ↦ none | some p ↦ some (m.blocks p).body ]

-- What the place of a thread says about what the threads share.
abbrev pub Local : ℕ → Shared → Pc → Type 0
Local count m finding = m.cache_locked ≡ true
Local count m making = (m.cache_locked ≡ true) × (m.item ≡ none)
Local count m (leaving p) = (m.cache_locked ≡ true) × Own m p
Local count m (found p) = Own m p
Local count m (checking p) = Own m p
Local count m (upgrading p) = Own m p
Local count m (locking p) = Own m p × ((m.blocks p).writing ≡ true)
Local count m (rechecking p) = Own m p × ((m.blocks p).writing ≡ true)
Local count m (fetching p) =
    Own m p × ((m.blocks p).writing ≡ true) × (length (m.blocks p).body ≢ count) × (m.fetches ≡ 0)
Local count m (filling p b) =
    Own m p
    × ((m.blocks p).writing ≡ true)
    × (length (m.blocks p).body ≢ count)
    × (m.fetches ≡ 1)
    × ((m.blocks p).position ≡ 0)
    × (length b ≡ count)
Local count m (rereading p) = Own m p × Good count m p
Local count m (reading p) = Own m p × Good count m p
Local count m (returned b) = (current m ≡ some b) × (length b ≡ count)
Local count m c = Unit

pub record Inv (count : ℕ) (m : Shared) (pc : ℕ → Pc) : Type 0 where
  pub few : m.fetches ≤ 1
  pub none_yet : m.item ≡ none → m.fetches ≡ 0
  pub fresh : (p : ℕ) → m.item ≡ some p → m.fetches ≡ 0 → (m.blocks p).position ≡ 0
  pub one_in_cache : (i j : ℕ) → holds_cache (pc i) ≡ true → holds_cache (pc j) ≡ true → i ≡ j
  pub one_writer : (i j : ℕ) → writes (pc i) ≡ true → writes (pc j) ≡ true → i ≡ j
  pub fetched :
      (p : ℕ)
      → m.item ≡ some p
      → m.fetches ≡ 1
      → (Good count m p) ⊎ ((i : ℕ) × (b : Bytes) × (pc i ≡ filling p b))
  pub locals : (i : ℕ) → Local count m (pc i)

-- The premise of a move, for clauses that match on no move.
abbrev pub Guard : {count : ℕ} {m m' : Shared} {c c' : Pc} → Move count m c m' c' → Type 0
Guard {m = m} (hit {p} e) = m.item ≡ some p
Guard {m = m} (miss e) = m.item ≡ none
Guard {m = m} (lock_cache e) = m.cache_locked ≡ false
Guard {m = m} (found_again {p} e) = m.item ≡ some p
Guard {m = m} (not_found e) = m.item ≡ none
Guard {m = m} (lock_to_read {p} e) = (m.blocks p).writing ≡ false
Guard {count} {m} (same_size {p} e) = Good count m p
Guard {count} {m} (other_size {p} e) = length (m.blocks p).body ≢ count
Guard {m = m} (begin_lock {p} e) = (m.blocks p).writing ≡ false
Guard {count} {m} (same_size_now {p} e) = Good count m p
Guard {count} {m} (still_other_size {p} e) = length (m.blocks p).body ≢ count
Guard {count} (fetch b e) = length b ≡ count
Guard {m = m} (lock_to_reread {p} e) = (m.blocks p).writing ≡ false
Guard {count} {m} (read_bytes {p} e) = Good count m p
Guard mv = Unit

pub guard : {count : ℕ} {m m' : Shared} {c c' : Pc} (mv : Move count m c m' c') → Guard mv
guard (hit e) = e
guard (miss e) = e
guard (lock_cache e) = e
guard (found_again e) = e
guard (not_found e) = e
guard (lock_to_read e) = e
guard (same_size e) = e
guard (other_size e) = e
guard (begin_lock e) = e
guard (same_size_now e) = e
guard (still_other_size e) = e
guard (fetch b e) = e
guard (lock_to_reread e) = e
guard (read_bytes e) = e
guard mv = tt
