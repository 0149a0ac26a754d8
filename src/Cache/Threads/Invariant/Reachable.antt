-- ===== src/Cache/Threads/Invariant/Reachable.antt =====
-- The invariant holds in every state that the threads reach.
use peerd_oci.Cache.Threads.Invariant.Locals.{Move-own, Move-others}
use peerd_oci.Cache.Threads.Invariant.Locks.{Move-one_in_cache, Move-one_writer}
use peerd_oci.Cache.Threads.Invariant.Fetches.{Move-few, Move-none_yet, Move-fresh, Move-fetched}
use peerd_oci.Prelude.{ℕ, inl, inr, arith, refl, Bool-cases, ◌==◌}
use peerd_oci.Cache.Threads.{
  Shared, Pc, Move, put_pc, System, Reach, begin, later, pick, empty, start,
}
use peerd_oci.Cache.Threads.Invariant.{Inv}

module _ {count : ℕ} {m : Shared} {pc : ℕ → Pc} (inv : Inv count m pc) (i : ℕ) where
  open inv use {locals}

  pub Move-Inv : {c' : Pc} {m' : Shared} → Move count m (pc i) m' c' → Inv count m' (put_pc pc i c')
  Move-Inv mv = record {
    few = Move-few inv i mv (locals i) refl;
    none_yet = Move-none_yet inv i mv (locals i) refl;
    fresh = Move-fresh inv i mv (locals i) refl;
    one_in_cache = Move-one_in_cache inv i mv (locals i) refl;
    one_writer = Move-one_writer inv i mv (locals i) refl;
    fetched = Move-fetched inv i mv (locals i) refl;
    locals = λ j. elim (Bool-cases (i == j)) [
      | inl same ↦ rw same (Move-own inv i mv (locals i) refl)
      | inr other ↦ rw other (
          Move-others inv i mv (locals i) refl j (pc j) refl (λ e. absurd (ground arith))
            (locals j))
    ];
  }

empty-Inv : {count : ℕ} → Inv count empty (λ i. start)
empty-Inv = record {
  few = omega arith;
  none_yet = λ e. refl;
  fresh = λ p e z. absurd (ground arith);
  one_in_cache = λ i j a b. absurd (ground arith);
  one_writer = λ i j a b. absurd (ground arith);
  fetched = λ p e o. absurd (ground arith);
  locals = λ i. tt;
}

-- The invariant holds in every state that the threads can reach.
pub Reach-Inv : {count : ℕ} {s : System} → Reach count s → Inv count s.mem s.pc
Reach-Inv begin = empty-Inv
Reach-Inv (later r (pick i mv)) = Move-Inv (Reach-Inv r) i mv
