-- ===== src/Cache/Threads/SingleFlight.antt =====
-- One fetch for a block: what threads see that ask `GetOrCreate` of filecache.go for it at the same time.
use peerd_oci.Cache.Threads.{
  Shared, System, Pc, Reach, Move, failed, making, returned, fetching, fetch_fails, read_other,
  make_fails,
}
use peerd_oci.Prelude.{ℕ, ◌≤◌, Bytes, ◌≡◌, ◌⊎◌, length, subst, inl, refl, inr}
use peerd_oci.Cache.Threads.Invariant.Reachable.{Reach-Inv}
use peerd_oci.Cache.Threads.Invariant.{Local}

fails_from_at :
    {count : ℕ} {m m' : Shared} {c d : Pc}
    → Move count m c m' d
    → d ≡ failed
    → Local count m c
    → (c ≡ making) ⊎ ((p : ℕ) × (c ≡ fetching p))
fails_from_at make_fails e local = inl refl
fails_from_at (fetch_fails {p}) e local = inr (p, refl)
fails_from_at (read_other other) e local = absurd (other local.1)
fails_from_at mv e local = absurd (cc)

module _ {count : ℕ} {s : System} (reach : Reach count s) where
  -- However the steps of any number of threads interleave that ask for one block of `count` bytes, at
  -- most one fetch returns the block. A fetch that fails does not count, and is tried again. The cache
  -- keeps the item, and the calls on the file do not fail.
  pub fetched_once : s.mem.fetches ≤ 1
  fetched_once = (Reach-Inv reach).few

  -- Any two threads that have returned, have returned the same bytes, as many as they asked for,
  -- however their steps interleave with those of others, also while these go on.
  pub returned_agree :
      (i j : ℕ) (b c : Bytes)
      → s.pc i ≡ returned b
      → s.pc j ≡ returned c
      → (b ≡ c) × (length b ≡ count)
  returned_agree i j b c at_i at_j =
      let (now_b, size) = subst (Local count s.mem) at_i ((Reach-Inv reach).locals i) in
      let (now_c, _) = subst (Local count s.mem) at_j ((Reach-Inv reach).locals j) in
      (cc (now_b, now_c), size)

  -- A call fails only because no item could be made, or because its own fetch failed: in no
  -- interleaving does a thread come to read a block that has another size than it asked for.
  pub fails_from :
      (i : ℕ) {m : Shared}
      → Move count s.mem (s.pc i) m failed
      → (s.pc i ≡ making) ⊎ ((p : ℕ) × (s.pc i ≡ fetching p))
  fails_from i mv = fails_from_at mv refl ((Reach-Inv reach).locals i)
