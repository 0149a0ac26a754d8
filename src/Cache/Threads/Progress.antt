-- ===== src/Cache/Threads/Progress.antt =====
-- What the locks are held for: who holds the lock of the cache, writes an item or reads it.
pub mod Counting
pub mod Keeps
pub mod Going
use peerd_oci.Prelude.{
  ℕ, Bool, true, false, ◌≡◌, ◌≤◌, ◌⊎◌, none, suc, ◌==◌, ◌+◌, inl, ◌-◌, zero, inr, arith, refl,
}
use peerd_oci.Cache.Threads.{
  unlock_cache, lock_cache, hit, miss, same_size, other_size, lock_to_read, lock_to_write,
  begin_lock, locking, same_size_now, still_other_size, fetch, write_all, lock_to_reread,
  read_bytes, read_other, fetch_fails, Shared, Pc, Move, put_pc, rechecking, checking, start,
  lock_cache, fetching, reading, filling, found_again, not_found, make, make_fails,
}
use peerd_oci.Cache.Threads.Invariant.{holds_cache, Inv, Local, guard}

abbrev pub writes_at : ℕ → Pc → Bool
writes_at q (locking p) = p == q
writes_at q (rechecking p) = p == q
writes_at q (fetching p) = p == q
writes_at q (filling p b) = p == q
writes_at q c = false

abbrev pub reads_at : ℕ → Pc → Bool
reads_at q (checking p) = p == q
reads_at q (reading p) = p == q
reads_at q c = false

abbrev pub to_number : Bool → ℕ
to_number true = 1
to_number false = 0

-- How many of the first `n` threads read the item.
abbrev pub count_reading : ℕ → (ℕ → Pc) → ℕ → ℕ
count_reading q pc zero = 0
count_reading q pc (suc n) = to_number (reads_at q (pc n)) + count_reading q pc n

pub record Held (m : Shared) (pc : ℕ → Pc) : Type 0 where
  pub cache_holder : m.cache_locked ≡ true → (i : ℕ) × (holds_cache (pc i) ≡ true)
  pub writer : (q : ℕ) → (m.blocks q).writing ≡ true → (i : ℕ) × (writes_at q (pc i) ≡ true)
  -- Threads from this number on have not started.
  pub many : ℕ
  pub unstarted : (i : ℕ) → many ≤ i → pc i ≡ start
  pub readers_counted : (q : ℕ) → (m.blocks q).readers ≡ count_reading q pc many

-- One step, for the lock of the cache.
pub Move-cache_locked :
    {count : ℕ} {m m' : Shared} {c c' : Pc}
    → Move count m c m' c'
    → m'.cache_locked ≡ true
    → (holds_cache c' ≡ true) ⊎ ((m.cache_locked ≡ true) × (holds_cache c ≡ false))
Move-cache_locked (lock_cache e) l = inl refl
Move-cache_locked (found_again e) l = inl refl
Move-cache_locked (not_found e) l = inl refl
Move-cache_locked (make b) l = inl refl
Move-cache_locked make_fails l = absurd (cc)
Move-cache_locked unlock_cache l = absurd (cc)
Move-cache_locked mv l = inr (l, refl)

-- One step, for the lock of an item to write.
pub Move-writing :
    {count : ℕ} {m m' : Shared} {c c' : Pc} (q : ℕ)
    → Move count m c m' c'
    → (m'.blocks q).writing ≡ true
    → (writes_at q c' ≡ true) ⊎ (((m.blocks q).writing ≡ true) × (writes_at q c ≡ false))
Move-writing q (make b) w = ground arith
Move-writing q (other_size e) w = ground arith
Move-writing q (lock_to_read e) w = ground arith
Move-writing q (begin_lock e) w = ground arith
Move-writing q (lock_to_write e) w = ground arith
Move-writing q (same_size_now e) w = ground arith
Move-writing q (still_other_size e) w = ground arith
Move-writing q (fetch b e) w = ground arith
Move-writing q (fetch_fails) w = ground arith
Move-writing q (write_all) w = ground arith
Move-writing q (lock_to_reread e) w = ground arith
Move-writing q (read_bytes e) w = ground arith
Move-writing q (read_other e) w = ground arith
Move-writing q mv w = inr (w, refl)

-- One step, for the readers of an item.
pub Move-readers :
    {count : ℕ} {m m' : Shared} {c c' : Pc} (q : ℕ)
    → Move count m c m' c'
    → (m.item ≡ none → (m.blocks q).readers ≡ 0)
    → Local count m c
    → (m'.blocks q).readers
      ≡ ((m.blocks q).readers + to_number (reads_at q c')) - to_number (reads_at q c)
Move-readers q (make b) none_made local = ground arith
Move-readers q (other_size e) none_made local = ground arith
Move-readers q (lock_to_read e) none_made local = ground arith
Move-readers q (begin_lock e) none_made local = ground arith
Move-readers q (lock_to_write e) none_made local = ground arith
Move-readers q (same_size_now e) none_made local = ground arith
Move-readers q (still_other_size e) none_made local = ground arith
Move-readers q (fetch b e) none_made local = ground arith
Move-readers q (fetch_fails) none_made local = ground arith
Move-readers q (write_all) none_made local = ground arith
Move-readers q (lock_to_reread e) none_made local = ground arith
Move-readers q (read_bytes e) none_made local = ground arith
Move-readers q (read_other e) none_made local = ground arith
Move-readers q (same_size e) none_made local = ground arith
Move-readers q mv none_made local = omega arith
