-- ===== src/Cache/Threads/Progress/Keeps.antt =====
-- Every lock is held by a thread that is there to give it back, in every state that the threads reach.
use peerd_oci.Prelude.{
  Bool, ℕ, ◌≡◌, refl, true, none, ◌⊎◌, false, suc, ==_refl, ◌+◌, Bool-cases, ◌==◌, arith, subst,
  ◌∙◌, sym,
}
use peerd_oci.Cache.Threads.{
  Shared, Pc, Move, put_pc, System, Reach, begin, later, pick, checking, reading,
}
use peerd_oci.Cache.Threads.Invariant.{Inv, Local, holds_cache}
use peerd_oci.Cache.Threads.Invariant.Reachable.{Reach-Inv}
use peerd_oci.Cache.Threads.Progress.{
  Held, reads_at, writes_at, Move-cache_locked, Move-writing, Move-readers, inl, inr,
}
use peerd_oci.Cache.Threads.Progress.Counting.{
  count_reading-put_pc, count_reading-add, count_reading-zero,
}

-- Some thread is as the test says after a step, if the one that took it is, or another was before.
still_some :
    (f : Pc → Bool) (pc : ℕ → Pc) (i : ℕ) (c : Pc)
    → (f c ≡ true) ⊎ (((j : ℕ) × (f (pc j) ≡ true)) × (f (pc i) ≡ false))
    → (j : ℕ) × (f (put_pc pc i c j) ≡ true)
still_some f pc i c (inl now) = (i, rw (==_refl i) now)
still_some f pc i c (inr ((j, before), not_i)) = (
  j,
  elim (Bool-cases (i == j)) [
    | inl same ↦
        let at : i ≡ j = ground arith in
        let clash : f (pc i) ≡ true = subst (λ k. f (pc k) ≡ true) (sym at) before in absurd (cc)
    | inr other ↦ rw other before
  ],
)

reading-Local :
    (count : ℕ) (m : Shared) (q : ℕ) (c : Pc)
    → Local count m c
    → m.item ≡ none
    → reads_at q c ≡ false
reading-Local count m q (checking p) local nothing = absurd (cc)
reading-Local count m q (reading p) local nothing = absurd (cc)
reading-Local count m q c local nothing = refl

module _ {count : ℕ} {m : Shared} {pc : ℕ → Pc} (inv : Inv count m pc) (held : Held m pc)
    (i : ℕ) where
  open held use {many, unstarted, readers_counted}

  Move-Held : {c : Pc} {m' : Shared} → Move count m (pc i) m' c → Held m' (put_pc pc i c)
  Move-Held {c} {m'} mv = record {
    cache_holder = λ l. still_some holds_cache pc i c (elim (Move-cache_locked mv l) [
      | inl now ↦ inl now
      | inr (before, not_i) ↦ inr (held.cache_holder before, not_i)
    ]);
    writer = λ q w. still_some (writes_at q) pc i c (elim (Move-writing q mv w) [
      | inl now ↦ inl now
      | inr (before, not_i) ↦ inr (held.writer q before, not_i)
    ]);
    many = suc i + many;
    unstarted =
        λ j le. let other : (i == j) ≡ false = ground arith in rw other (unstarted j (omega arith));
    readers_counted = λ q.
        let nobody : m.item ≡ none → (m.blocks q).readers ≡ 0 = λ nothing.
          readers_counted q
          ∙ count_reading-zero q pc many
              (λ j. reading-Local count m q (pc j) (inv.locals j) nothing) in
        let moved = Move-readers q mv nobody (inv.locals i) in
        let wide = count_reading-add q pc many (suc i) unstarted in
        let counted = count_reading-put_pc q pc i c (suc i + many) (omega arith) in
        omega (arith, moved, wide, counted, readers_counted q);
  }

pub Reach-Held : {count : ℕ} {s : System} → Reach count s → Held s.mem s.pc
Reach-Held begin = record {
  cache_holder = λ l. absurd (cc);
  writer = λ q w. absurd (cc);
  many = 0;
  unstarted = λ i le. refl;
  readers_counted = λ q. refl;
}
Reach-Held (later r (pick i mv)) = Move-Held (Reach-Inv r) (Reach-Held r) i mv
