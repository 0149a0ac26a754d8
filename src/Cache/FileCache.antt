-- ===== src/Cache/FileCache.antt =====
-- pkg/cache/filecache.go: the cache of file blocks. The library that holds the items is an
-- interface; `GetOrCreate` is shown as one thread runs it, for which it makes no difference
-- that the read lock on an item is given back and taken again between its parts.
pub mod Key
pub mod Hit
pub mod Fill
pub mod Fetch
pub mod Fails
pub mod Miss
pub mod Sizes
pub mod Start
use peerd_oci.Prelude.{
  Bytes, List, Option, ◌∷◌, Bool, ok, ℕ, some, true, if◌then◌else◌, [], codes, blocked, false, none,
  bytes_eq, ltb, unexpected_eof, fill_mismatch, length, ◌++◌, bytes_mismatch,
}
use peerd_oci.Cache.SyncMap
use peerd_oci.Cache.SyncMap.{SyncMap}
use peerd_oci.Cache.Item.{World, on_env, stat_item, lock_item, unlock_item, new_item, bytes, fill}
use peerd_oci.Int64.{ℤ, pos, eq64, lt64}
use peerd_oci.Strings.{format_int}
use peerd_oci.Action.{
  Action, pure, raise, lift, gets, modify, fault, wait_for_ever, ◌>>=◌, ◌>>◌, attempt, Attempt,
  done, failed,
}

-- The cache of items (ristretto), by what the program calls: `Get`, and `Set` at the end of the
-- wait for its buffers, which says whether the item was taken.
pub record Blocks : Type 1 where
  pub State : Type 0
  pub get : Bytes → State → Option ℕ
  pub set : Bytes → ℕ → State → Bool × State

-- `filepath.Join`, for elements that are clean: the empty ones are left out.
unfoldable pub join : List Bytes → Bytes
join [] = []
join (p ∷ ps) =
    let rest = join ps in
    if bytes_eq p [] then rest else if bytes_eq rest [] then p else p ++ b'/' ∷ rest

-- The key of a block: the path of its file.
unfoldable pub get_key : Bytes → Bytes → ℤ → Bytes
unfolding join
get_key path name offset = join (path ∷ name ∷ format_int offset ∷ [])

-- The key of the size of a file.
unfoldable pub metainfo_key : Bytes → Bytes
unfolding join
metainfo_key name = join (name ∷ codes "metainfo" ∷ [])

module _ (B : Blocks) (path : Bytes) {E : Type 0} where
  open B use {State, get, set}

  -- `Size`.
  unfoldable pub size : Bytes → Action (World State E) (ℤ × Bool)
  size name w = elim (SyncMap.get (metainfo_key name) w.sizes) [
    | none ↦ (ok (pos 0, false), w)
    | some n ↦ (ok (n, true), w)
  ]

  -- `PutSize`; `order` is the order of the range over the sizes.
  unfoldable pub put_size : List Bytes → Bytes → ℤ → Action (World State E) Bool
  put_size order name len w =
      (ok true, record w { sizes = SyncMap.set order (metainfo_key name) len w.sizes })

  -- `Exists`.
  unfoldable pub exists : Bytes → ℤ → Action (World State E) Bool
  exists name offset = do
    val ← gets (λ w. get (get_key path name offset) w.blocks)
    elim val [
      | none ↦ pure false
      | some p ↦ do
        lock_item p
        info ← attempt (stat_item p)
        unlock_item p
        pure (elim info [ done n ↦ ltb 0 n | failed e ↦ false ])
    ]

  unfoldable pub lock_cache : Action (World State E) (Unit {0})
  lock_cache w = elim w.locked [ true ↦ (blocked, w) | false ↦ (ok tt, record w { locked = true }) ]

  unfoldable pub unlock_cache : Action (World State E) (Unit {0})
  unlock_cache w = (ok tt, record w { locked = false })

  unfoldable pub set_block : Bytes → ℕ → Action (World State E) Bool
  set_block key p w = let (taken, r) = set key p w.blocks in (ok taken, record w { blocks = r })

  -- The part of `GetOrCreate` under the lock of the cache: the item of the key, made if need be.
  unfoldable pub find_or_make : Bytes → Action (World State E) ℕ
  find_or_make key = do
    lock_cache
    val ← gets (λ w. get key w.blocks)
    elim val [
      | some p ↦ do unlock_cache; pure p
      | none ↦ do
        made ← attempt (new_item key)
        elim made [
          | failed e ↦ do unlock_cache; raise e
          | done p ↦ do
            taken ← set_block key p
            unlock_cache
            if taken then pure p else raise unexpected_eof
        ]
    ]

  -- The part of `GetOrCreate` under the locks of the item, up to the last read: the item is filled
  -- if it has not the expected size.
  unfoldable pub ensure_filled : ℕ → ℤ → Action E Bytes → Action (World State E) (Unit {0})
  ensure_filled p count fetch = do
    lock_item p
    info ← attempt (stat_item p)
    elim info [
      | failed e ↦ do unlock_item p; raise e
      | done n ↦ if eq64 (pos n) count then unlock_item p else do
        unlock_item p
        lock_item p
        again ← attempt (stat_item p)
        elim again [
          | failed e ↦ do unlock_item p; raise e
          | done m ↦ if eq64 (pos m) count then unlock_item p else do
            filled ← attempt (fill p fetch)
            unlock_item p
            elim filled [
              | failed e ↦ raise e
              | done k ↦ if eq64 (pos k) count then pure tt else raise fill_mismatch
            ]
        ]
    ]

  -- The last read of `GetOrCreate`.
  unfoldable pub read_block : ℕ → ℤ → Action (World State E) Bytes
  read_block p count = do
    lock_item p
    result ← bytes p
    unlock_item p
    if eq64 (pos (length result)) count then pure result else raise bytes_mismatch

  -- `GetOrCreate`.
  unfoldable pub get_or_create : Bytes → ℤ → ℤ → Action E Bytes → Action (World State E) Bytes
  get_or_create name aligned_offset count fetch = do
    val ← gets (λ w. get (get_key path name aligned_offset) w.blocks)
    p ← elim val [ some p ↦ pure p | none ↦ find_or_make (get_key path name aligned_offset) ]
    ensure_filled p count fetch
    read_block p count
