-- ===== src/Cache/FileCache/Start.antt =====
-- `NewCache` of filecache.go.
use peerd_oci.Int64.{pos}
use peerd_oci.Cache.Item.{World}
use peerd_oci.Os.{Disk, mkdir_all}
use peerd_oci.Prelude.{Outcome, Option, none, some, [], false, ok, err, ◌^◌, panic, blocked}
use peerd_oci.Cache.SyncMap.{new_sync_map}

-- The state of a cache that was just made.
unfoldable pub empty_cache : {R E : Type 0} → Disk → R → E → World R E
empty_cache d r env = record {
  disk = d;
  items = λ p. record { key = []; file = none; locked = false };
  next_item = 0;
  fd_count = pos 0;
  blocks = r;
  sizes = new_sync_map (pos (10 ^ 7));
  locked = false;
  env = env;
}

-- `NewCache`, on what `ristretto.NewCache` returns; `none` where the process ends by `log.Fatal`.
unfoldable pub new_cache : {R E : Type 0} → Outcome R → E → Disk → Option (World R E) × Disk
unfolding empty_cache
new_cache library env d =
    let (made, d') = mkdir_all d in
    elim made [
      | ok _ ↦ elim library [
        | ok r ↦ (some (empty_cache d' r env), d')
        | err e ↦ (none, d')
        | panic ↦ (none, d')
        | blocked ↦ (none, d')
      ]
      | err e ↦ (none, d')
      | panic ↦ (none, d')
      | blocked ↦ (none, d')
    ]
