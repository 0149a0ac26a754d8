-- ===== src/Cache/Threads/Progress/Counting.antt =====
-- The number of threads that read an item, when one of them takes a step.
use peerd_oci.Prelude.{
  ℕ, ◌≤◌, ◌<◌, ◌≢◌, ◌≡◌, ◌+◌, true, false, arith, ap, Bool-cases, zero, ◌==◌, subst, refl,
}
use peerd_oci.Cache.Threads.{Pc, put_pc, start}
use peerd_oci.Cache.Threads.Progress.{reads_at, to_number, count_reading, suc, inl, inr}

module _ (q : ℕ) (pc : ℕ → Pc) where
  -- A later thread does not change the count.
  count_reading-later :
      (i : ℕ) (c : Pc) (n : ℕ) → n ≤ i → count_reading q (put_pc pc i c) n ≡ count_reading q pc n
  count_reading-later i c zero le = refl
  count_reading-later i c (suc n) le =
      let rest = count_reading-later i c n (omega arith) in
      let other : (i == n) ≡ false = ground arith in rw other (omega (arith, rest))

  pub count_reading-put_pc :
      (i : ℕ) (c : Pc) (n : ℕ)
      → i < n
      → count_reading q (put_pc pc i c) n + to_number (reads_at q (pc i))
        ≡ count_reading q pc n + to_number (reads_at q c)
  count_reading-put_pc i c zero lt = absurd (omega arith)
  count_reading-put_pc i c (suc n) lt = elim (Bool-cases (i == n)) [
    | inl same ↦
        let at : i ≡ n = ground arith in
        let rest = count_reading-later i c n (omega arith) in
        let reads = ap (λ j. to_number (reads_at q (pc j))) at in
        rw same (omega (arith, rest, reads))
    | inr other ↦
        let rest = count_reading-put_pc i c n (ground arith) in rw other (omega (arith, rest))
  ]

  -- Threads that have not started do not count.
  pub count_reading-add :
      (n k : ℕ)
      → ((i : ℕ) → n ≤ i → pc i ≡ start)
      → count_reading q pc (k + n) ≡ count_reading q pc n
  count_reading-add n zero idle = ap (count_reading q pc) (omega arith)
  count_reading-add n (suc k) idle =
      let one : suc (k + n) ≡ suc k + n = omega arith in
      let none_here = idle (k + n) (omega arith) in
      subst (λ x. count_reading q pc x ≡ count_reading q pc n) one
        (omega (arith, ap (λ c. to_number (reads_at q c)) none_here, count_reading-add n k idle))

  pub reading_of_count : (n : ℕ) → count_reading q pc n ≢ 0 → (i : ℕ) × (reads_at q (pc i) ≡ true)
  reading_of_count zero some_one = absurd (some_one refl)
  reading_of_count (suc n) some_one = elim (Bool-cases (reads_at q (pc n))) [
    | inl reads ↦ (n, reads)
    | inr other ↦
        let nobody = ap to_number other in
        reading_of_count n (λ e. some_one (omega (arith, e, nobody)))
  ]

  pub count_reading-zero :
      (n : ℕ) → ((i : ℕ) → reads_at q (pc i) ≡ false) → count_reading q pc n ≡ 0
  count_reading-zero zero no_one = refl
  count_reading-zero (suc n) no_one =
      omega (arith, ap to_number (no_one n), count_reading-zero n no_one)
