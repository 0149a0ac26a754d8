-- ===== src/Cache/Threads/Invariant/Locals.antt =====
-- What the place of each thread says is kept by every move.
use peerd_oci.Prelude.{ℕ, inl, inr, zero, suc, ◌≤◌, ◌≡◌, ◌⊎◌, ◌≢◌, some, arith, length, refl}
use peerd_oci.Cache.Threads.{Shared, Pc, Move, hit, still_other_size, fetch, rechecking}
use peerd_oci.Cache.Threads.Invariant.{Inv, Local, guard}

zero_or_one : (n : ℕ) → n ≤ 1 → (n ≡ 0) ⊎ (n ≡ 1)
zero_or_one zero h = inl refl
zero_or_one (suc zero) h = inr refl
zero_or_one (suc (suc n)) h = absurd (omega arith)

module _ {count : ℕ} {m : Shared} {pc : ℕ → Pc} (inv : Inv count m pc) (i : ℕ) where
  open inv use {few, none_yet, fresh, one_in_cache, one_writer, fetched, locals}

  -- What holds of any thread `j` at `d` after the move, if it is not the one that moved.
  pub Move-others :
      {c c' : Pc} {m' : Shared}
      → Move count m c m' c'
      → Local count m c
      → pc i ≡ c
      → (j : ℕ) (d : Pc) → pc j ≡ d
      → i ≢ j
      → Local count m d
      → Local count m' d
  Move-others (hit e) own here j d there other l = ground arith
  Move-others mv own here j d there other l =
      ground (arith, guard mv, one_in_cache i j, one_writer i j)

  -- Nobody fills the item while thread `i` looks at it under the write lock: what was fetched is there.
  pub nothing_fetched :
      (p : ℕ)
      → pc i ≡ rechecking p
      → m.item ≡ some p
      → length (m.blocks p).body ≢ count
      → m.fetches ≡ 0
  nothing_fetched p here own other = elim (zero_or_one m.fetches few) [
    | inl z ↦ z
    | inr o ↦ elim (fetched p own o) [
      | inl good ↦ absurd (other good)
      | inr (k, b, fills) ↦
          let same : i ≡ k = one_writer i k (ground arith) (ground arith) in absurd (ground arith)
    ]
  ]

  -- What holds of the thread that moved.
  pub Move-own :
      {c c' : Pc} {m' : Shared}
      → Move count m c m' c'
      → Local count m c
      → pc i ≡ c
      → Local count m' c'
  Move-own (still_other_size {p = p} e) own here = ground (arith, nothing_fetched p)
  Move-own (fetch {p = p} b e) own here = ground (arith, fresh p)
  Move-own mv own here = ground (arith, guard mv)
