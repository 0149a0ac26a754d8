-- ===== src/Tests/Threads.antt =====
-- Two threads that ask for the same block of two bytes.
use peerd_oci.Cache.Threads.Progress.Going.{Going, no_deadlock}
use peerd_oci.Prelude.{ℕ, [], arith, ◌≤◌, codes, ◌≡◌, length, refl, ◌≢◌}
use peerd_oci.Cache.Threads.{
  miss, lock_cache, not_found, make, unlock_cache, lock_to_read, other_size, lock_to_write,
  begin_lock, still_other_size, fetch, write_all, lock_to_reread, read_bytes, found_again, System,
  Reach, Move, later, begin, pick, same_size_now, Shared, Pc,
}
use peerd_oci.Cache.Threads.SingleFlight.{fetched_once, returned_agree}

not_two : ◌≢◌ {A = ℕ} 0 2
not_two e = ground arith

abbrev Run : Type 0
Run = (s : System) × Reach 2 s

abbrev step : (run : Run) (i : ℕ) {m : Shared} {p : Pc} → Move 2 run.0.mem (run.0.pc i) m p → Run
step run i mv = (_, later run.1 (pick i mv))

-- Both miss, the first makes the item, and the second finds it.
abbrev both_miss : Run
both_miss = step (step (_, begin) 0 (miss refl)) 1 (miss refl)

abbrev one_makes : Run
one_makes =
    step (step (step (step both_miss 0 (lock_cache refl)) 0 (not_found refl)) 0 (make [])) 0
      unlock_cache

abbrev other_finds : Run
other_finds = step (step (step one_makes 1 (lock_cache refl)) 1 (found_again refl)) 1 unlock_cache

-- Both see that the file has another size.
abbrev both_see : Run
both_see =
    step
      (step (step (step other_finds 0 (lock_to_read refl)) 1 (lock_to_read refl)) 0
        (other_size not_two))
      1 (other_size not_two)

-- The second fetches, and the first finds the size right when it has the lock.
abbrev fetches : Run
fetches =
    step (step (step both_see 1 (begin_lock refl)) 1 (lock_to_write refl)) 1
      (still_other_size not_two)

abbrev one_fetched : Run
one_fetched = step fetches 1 (fetch (codes "ab") refl)

abbrev both_read : Run
both_read =
    step (step (step (step one_fetched 1 write_all) 0 (begin_lock refl)) 0 (lock_to_write refl)) 0
      (same_size_now refl)

abbrev both_return : Run
both_return =
    step
      (step (step (step both_read 0 (lock_to_reread refl)) 1 (lock_to_reread refl)) 0
        (read_bytes refl))
      1 (read_bytes refl)

fetched_once_example : both_return.0.mem.fetches ≤ 1
fetched_once_example = fetched_once both_return.1

returned_agree_example : (codes "ab" ≡ codes "ab") × (length (codes "ab") ≡ 2)
returned_agree_example = returned_agree both_return.1 0 1 (codes "ab") (codes "ab") refl refl

no_deadlock_example : (j : ℕ) × Going 2 fetches.0.mem (fetches.0.pc j)
no_deadlock_example = no_deadlock 2 fetches.0 1 fetches.1 refl
