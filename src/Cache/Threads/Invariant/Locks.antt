-- ===== src/Cache/Threads/Invariant/Locks.antt =====
-- One thread at a time is under the lock of the cache, and one under the write lock of the item.
use peerd_oci.Prelude.{ℕ, ◌≡◌, false, some, true, arith}
use peerd_oci.Cache.Threads.{Shared, Pc, Move, put_pc, lock_cache, begin_lock}
use peerd_oci.Cache.Threads.Invariant.{Inv, Local, writes, holds_cache}

module _ {count : ℕ} {m : Shared} {pc : ℕ → Pc} (inv : Inv count m pc) (i : ℕ) where
  open inv use {one_in_cache, one_writer, locals}

  -- Where a lock is free, nobody is in a place that it guards.
  nobody_in_cache : (d : Pc) → Local count m d → m.cache_locked ≡ false → holds_cache d ≡ false
  nobody_in_cache d l free = ground arith

  nobody_writes :
      (d : Pc) (p : ℕ)
      → Local count m d
      → m.item ≡ some p
      → (m.blocks p).writing ≡ false
      → writes d ≡ false
  nobody_writes d p l own free = ground arith

  pub Move-one_in_cache :
      {c c' : Pc} {m' : Shared}
      → Move count m c m' c'
      → Local count m c
      → pc i ≡ c
      → (a b : ℕ) → holds_cache (put_pc pc i c' a) ≡ true
      → holds_cache (put_pc pc i c' b) ≡ true
      → a ≡ b
  Move-one_in_cache (lock_cache e) own here a b ha hb =
      ground (arith, nobody_in_cache (pc a) (locals a) e, nobody_in_cache (pc b) (locals b) e)
  Move-one_in_cache mv own here a b ha hb =
      ground (arith, one_in_cache a b, one_in_cache i a, one_in_cache i b)

  pub Move-one_writer :
      {c c' : Pc} {m' : Shared}
      → Move count m c m' c'
      → Local count m c
      → pc i ≡ c
      → (a b : ℕ) → writes (put_pc pc i c' a) ≡ true
      → writes (put_pc pc i c' b) ≡ true
      → a ≡ b
  Move-one_writer (begin_lock {p = p} e) own here a b ha hb =
      ground
        (arith, nobody_writes (pc a) p (locals a) own e, nobody_writes (pc b) p (locals b) own e)
  Move-one_writer mv own here a b ha hb =
      ground (arith, one_writer a b, one_writer i a, one_writer i b)
