-- ===== src/Cache/Threads/Invariant/Fetches.antt =====
-- The block is fetched once at most, and what was fetched is in the file or about to be written.
use peerd_oci.Prelude.{ℕ, Bytes, inl, inr, ◌≡◌, ◌≤◌, none, some, arith, ◌⊎◌}
use peerd_oci.Cache.Threads.{
  Shared, Pc, Move, put_pc, hit, fetch, make, fetch_fails, write_all, filling,
}
use peerd_oci.Cache.Threads.Invariant.{Inv, Local, Good}

module _ {count : ℕ} {m : Shared} {pc : ℕ → Pc} (inv : Inv count m pc) (i : ℕ) where
  open inv use {few, none_yet, fresh, fetched}

  pub Move-few :
      {c c' : Pc} {m' : Shared} → Move count m c m' c' → Local count m c → pc i ≡ c → m'.fetches ≤ 1
  Move-few (hit e) own here = ground (arith, few)
  Move-few mv own here = ground (arith, few)

  pub Move-none_yet :
      {c c' : Pc} {m' : Shared}
      → Move count m c m' c'
      → Local count m c
      → pc i ≡ c
      → m'.item ≡ none
      → m'.fetches ≡ 0
  Move-none_yet (hit e) own here e' = ground (arith, none_yet)
  Move-none_yet mv own here e' = ground (arith, none_yet)

  pub Move-fresh :
      {c c' : Pc} {m' : Shared}
      → Move count m c m' c'
      → Local count m c
      → pc i ≡ c
      → (q : ℕ) → m'.item ≡ some q
      → m'.fetches ≡ 0
      → (m'.blocks q).position ≡ 0
  Move-fresh (hit e) own here q e' z = ground (arith, fresh q)
  Move-fresh mv own here q e' z = ground (arith, fresh q)

  pub Move-fetched :
      {c c' : Pc} {m' : Shared}
      → Move count m c m' c'
      → Local count m c
      → pc i ≡ c
      → (q : ℕ) → m'.item ≡ some q
      → m'.fetches ≡ 1
      → Good count m' q ⊎ ((k : ℕ) × (b : Bytes) × (put_pc pc i c' k ≡ filling q b))
  Move-fetched (fetch b e) own here q e' o = inr (i, b, ground arith)
  Move-fetched write_all own here q e' o = inl (ground arith)
  Move-fetched (make left) own here q e' o = absurd (ground (arith, none_yet))
  Move-fetched fetch_fails own here q e' o = absurd (ground arith)
  Move-fetched mv own here q e' o = elim (fetched q (ground arith) (ground arith)) [
    | inl good ↦ inl (ground arith)
    | inr (k, b, fills) ↦ inr (k, b, ground arith)
  ]
