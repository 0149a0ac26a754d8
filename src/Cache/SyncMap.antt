-- ===== src/Cache/SyncMap.antt =====
-- pkg/cache/syncmap.go: a map with a capacity, which drops some entries when it is full. The order
-- in which a Go program ranges over a map is not fixed: it is an argument of `set`. Every operation
-- holds the lock from its first to its last statement, so the operations follow one another.
pub mod Laws
pub mod Room
use peerd_oci.Prelude.{
  ℕ, [], Bytes, List, if◌then◌else◌, Option, ◌∷◌, length, some, ◌+◌, ◌*◌, leb, ◌/◌, none,
}
use peerd_oci.Prelude.Dict
use peerd_oci.Prelude.Dict.{Dict}
use peerd_oci.Int64.{ℤ, pos, pos_part, lt64}

abbrev pub default_eviction_percentage : ℕ
default_eviction_percentage = 5

pub record SyncMap {ℓ} (V : Type ℓ) : Type ℓ where
  pub entries : Dict V
  pub capacity : ℕ
  pub eviction_percentage : ℕ

-- A capacity that is not positive is set to one.
unfoldable pub new_sync_map {ℓ} : {V : Type ℓ} → ℤ → SyncMap V
new_sync_map max_entries = record {
  entries = [];
  capacity = if lt64 (pos 0) max_entries then pos_part max_entries else 1;
  eviction_percentage = default_eviction_percentage;
}

module _ {ℓ} {V : Type ℓ} where
  unfoldable pub get : Bytes → SyncMap V → Option V
  get key sm = Dict.lookup key sm.entries

  -- `for k := range m { delete(m, k); … }` over the keys in the order of the range.
  unfoldable pub evict : List Bytes → ℕ → ℕ → Dict V → Dict V
  evict [] num_to_evict num_evicted m = m
  evict (k ∷ order) num_to_evict num_evicted m =
      let more = evict order num_to_evict (num_evicted + 1) (Dict.erase k m) in
      if leb num_to_evict (num_evicted + 1) then Dict.erase k m else more

  -- How many entries a full map of this size gives up.
  unfoldable pub num_to_evict : SyncMap V → ℕ
  num_to_evict sm =
      let n = length sm.entries * sm.eviction_percentage / 100 in if leb n 1 then 1 else n

  -- The entries among which a new key finds room.
  unfoldable pub make_room : List Bytes → SyncMap V → Dict V
  unfolding evict num_to_evict
  make_room order sm =
      if leb sm.capacity (length sm.entries)
      then evict order (num_to_evict sm) 0 sm.entries
      else sm.entries

  unfoldable pub set : List Bytes → Bytes → V → SyncMap V → SyncMap V
  set order key entry sm =
      let kept : Dict V = elim (Dict.lookup key sm.entries) [
        | some old ↦ sm.entries
        | none ↦ make_room order sm
      ] in
      record sm { entries = Dict.insert key entry kept }

  unfoldable pub delete : Bytes → SyncMap V → SyncMap V
  delete key sm = record sm { entries = Dict.erase key sm.entries }
