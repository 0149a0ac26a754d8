-- ===== src/Cache/Threads/Progress/Going.antt =====
-- No interleaving of threads in `GetOrCreate` comes to a stand.
use peerd_oci.Prelude.{
  Bool, ℕ, false, ◌≡◌, true, ◌⊎◌, Bool-cases, ◌≢◌, Option-cases, length, ◌==◌, ◌∙◌, refl, arith,
  ==_refl, ap,
}
use peerd_oci.Cache.Threads.{
  Shared, Pc, Move, System, Reach, start, waiting, finding, making, leaving, found, checking,
  upgrading, rechecking, fetching, filling, rereading, reading, returned, failed, lock_cache,
  found_again, not_found, make_fails, unlock_cache, lock_to_read, same_size, other_size,
  lock_to_write, begin_lock, locking, same_size_now, still_other_size, fetch_fails, write_all,
  lock_to_reread, read_bytes, read_other,
}
use peerd_oci.Cache.Threads.Invariant.{holds_cache}
use peerd_oci.Cache.Threads.Progress.{Held, reads_at, writes_at, inl, inr}
use peerd_oci.Cache.Threads.Progress.Counting.{reading_of_count}
use peerd_oci.Cache.Threads.Progress.Keeps.{Reach-Held}

-- The thread has begun its call, and the call has not ended.
abbrev pub inside : Pc → Bool
inside start = false
inside (returned b) = false
inside failed = false
inside c = true

-- The thread is in its call, and can take a step.
abbrev pub Going : ℕ → Shared → Pc → Type 0
Going count m c = (inside c ≡ true) × (m' : Shared) × (c' : Pc) × Move count m c m' c'

same_or_not : (a b : ℕ) → (a ≡ b) ⊎ (a ≢ b)
same_or_not a b = elim (Bool-cases (a == b)) [
  | inl same ↦ inl (ground arith)
  | inr other ↦ inr (λ e. ground arith)
]

module _ (count : ℕ) (m : Shared) where
  holding-Going : (c : Pc) → holds_cache c ≡ true → Going count m c
  holding-Going finding h = elim (Option-cases m.item) [
    | inl nothing ↦ (refl, _, _, not_found nothing)
    | inr (p, there) ↦ (refl, _, _, found_again there)
  ]
  holding-Going making h = (refl, _, _, make_fails)
  holding-Going (leaving p) h = (refl, _, _, unlock_cache)
  holding-Going c h = absurd (cc)

  -- A writer goes on once nobody reads: only in `Lock` does it wait for the readers.
  writing-Going :
      (q : ℕ) (c : Pc) → writes_at q c ≡ true → (m.blocks q).readers ≡ 0 → Going count m c
  writing-Going q (locking p) w nobody =
      let at : p ≡ q = ground arith in
      (refl, _, _, lock_to_write (ap (λ r. (m.blocks r).readers) at ∙ nobody))
  writing-Going q (rechecking p) w nobody = elim (same_or_not (length (m.blocks p).body) count) [
    | inl same ↦ (refl, _, _, same_size_now same)
    | inr other ↦ (refl, _, _, still_other_size other)
  ]
  writing-Going q (fetching p) w nobody = (refl, _, _, fetch_fails)
  writing-Going q (filling p b) w nobody = (refl, _, _, write_all)
  writing-Going q c w nobody = absurd (cc)

  reading-Going : (q : ℕ) (c : Pc) → reads_at q c ≡ true → Going count m c
  reading-Going q (checking p) r = elim (same_or_not (length (m.blocks p).body) count) [
    | inl same ↦ (refl, _, _, same_size same)
    | inr other ↦ (refl, _, _, other_size other)
  ]
  reading-Going q (reading p) r = elim (same_or_not (length (m.blocks p).body) count) [
    | inl same ↦ (refl, _, _, read_bytes same)
    | inr other ↦ (refl, _, _, read_other other)
  ]
  reading-Going q c r = absurd (cc)

  module _ (pc : ℕ → Pc) (held : Held m pc) where
    abbrev pub SomeGoes : Type 0
    SomeGoes = (j : ℕ) × Going count m (pc j)

    -- Whoever reads the item goes on, or nobody does.
    unless_read : (p : ℕ) → ((m.blocks p).readers ≡ 0 → SomeGoes) → SomeGoes
    unless_read p free = elim (same_or_not (m.blocks p).readers 0) [
      | inl nobody ↦ free nobody
      | inr some_one ↦
          let (j, r) =
            reading_of_count p pc held.many (λ e. some_one (held.readers_counted p ∙ e)) in
          (j, reading-Going p (pc j) r)
    ]

    -- Whoever writes the item, or waits for its readers to write, goes on or waits for one that does.
    unless_written : (p : ℕ) → ((m.blocks p).writing ≡ false → SomeGoes) → SomeGoes
    unless_written p free = elim (Bool-cases (m.blocks p).writing) [
      | inl taken ↦
          let (j, w) = held.writer p taken in
          unless_read p (λ nobody. (j, writing-Going p (pc j) w nobody))
      | inr not_taken ↦ free not_taken
    ]

    -- A thread at this place goes on, or waits for one that does.
    someone_goes : (i : ℕ) (c : Pc) → inside c ≡ true → (Going count m c → SomeGoes) → SomeGoes
    someone_goes i start within by_itself = absurd (cc)
    someone_goes i waiting within by_itself = elim (Bool-cases m.cache_locked) [
      | inl taken ↦ let (j, h) = held.cache_holder taken in (j, holding-Going (pc j) h)
      | inr free ↦ by_itself (refl, _, _, lock_cache free)
    ]
    someone_goes i (found p) within by_itself =
        unless_written p (λ free. by_itself (refl, _, _, lock_to_read free))
    someone_goes i (upgrading p) within by_itself =
        unless_written p (λ free. by_itself (refl, _, _, begin_lock free))
    someone_goes i (locking p) within by_itself =
        unless_read p (λ nobody. by_itself (refl, _, _, lock_to_write nobody))
    someone_goes i (rereading p) within by_itself =
        unless_written p (λ free. by_itself (refl, _, _, lock_to_reread free))
    someone_goes i finding within by_itself = by_itself (holding-Going finding refl)
    someone_goes i making within by_itself = by_itself (holding-Going making refl)
    someone_goes i (leaving p) within by_itself = by_itself (holding-Going (leaving p) refl)
    someone_goes i (rechecking p) within by_itself =
        unless_read p (λ nobody. by_itself (writing-Going p (rechecking p) (==_refl p) nobody))
    someone_goes i (fetching p) within by_itself =
        unless_read p (λ nobody. by_itself (writing-Going p (fetching p) (==_refl p) nobody))
    someone_goes i (filling p b) within by_itself =
        unless_read p (λ nobody. by_itself (writing-Going p (filling p b) (==_refl p) nobody))
    someone_goes i (checking p) within by_itself =
        by_itself (reading-Going p (checking p) (==_refl p))
    someone_goes i (reading p) within by_itself =
        by_itself (reading-Going p (reading p) (==_refl p))
    someone_goes i (returned b) within by_itself = absurd (cc)
    someone_goes i failed within by_itself = absurd (cc)

-- However the steps of threads interleave that ask for one block, as long as some thread is in its call,
-- some thread in its call can take a step: no lock is left held, and no threads wait for each other, although
-- a call of `Lock` that waits for the readers of an item keeps further readers out.
pub no_deadlock :
    (count : ℕ) (s : System) (i : ℕ)
    → Reach count s
    → inside (s.pc i) ≡ true
    → (j : ℕ) × Going count s.mem (s.pc j)
no_deadlock count s i reach within =
    someone_goes count s.mem s.pc (Reach-Held reach) i (s.pc i) within (λ g. (i, g))
