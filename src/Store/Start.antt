-- ===== src/Store/Start.antt =====
-- pkg/files/store/store.go: `NewFilesStore`, as far as the number of workers decides it.
use peerd_oci.Prelude.{Bool, Outcome, ℕ, ok, ltb, panic}
use peerd_oci.Int64.{ℤ, pos, negsuc}

-- The channels and the workers of a store.
pub record Workers : Type 0 where
  pub prefetchable : Bool
  pub queue_capacity : ℕ
  pub blobs_capacity : ℕ
  pub running : ℕ

-- A channel with a negative capacity makes `make` panic.
unfoldable pub new_files_store : ℤ → Outcome Workers
new_files_store (pos n) =
    ok (record { prefetchable = ltb 0 n; queue_capacity = n; blobs_capacity = 1000; running = n })
new_files_store (negsuc n) = panic
