-- ===== src/K8s/Election/Config/Run.antt =====
-- What an election that was started tells `Leader`.
use peerd_oci.Action.{continue, ◌>>=◌}
use peerd_oci.K8s.Election.Config.{ElectionConfig, run_or_die, lift, modify, leader_election_config}
use peerd_oci.Action.{◌>>=◌, continue, lift, modify}
use peerd_oci.Prelude.{
  ◌≡◌, ◌≤◌, Bytes, ◌*◌, List, ◌<◌, ◌∷◌, [], Outcome, ok, ◌≢◌, ◌⊎◌, ◌++◌, inl, refl, none, blocked,
  arith, err, inr, panic, ap, ◌∙◌,
}
use peerd_oci.K8s.{on_new_leader}
use peerd_oci.K8s.Election.{
  after, leader-on_new_leader, latest_known, LeaderElection, new_election, leader, some,
}

-- What `NewLeaderElector` of the library asks of the durations: a retry period of at least one, a
-- deadline above 1.2 times it, and a lease above the deadline.
abbrev pub Accepted : {L : Type 0} → ElectionConfig L → Type 0
Accepted config =
    (1 ≤ config.retry_period)
    × (12 * config.retry_period < 10 * config.renew_deadline)
    × (config.renew_deadline < config.lease_duration)

-- The callbacks of an election, for the leaders that the library announces, the latest first.
abbrev pub announce : {L : Type 0} → ElectionConfig L → List Bytes → LeaderElection
announce config [] = new_election
announce config (identity ∷ earlier) = config.on_new_leader identity (announce config earlier)

-- The callbacks are `onNewLeader`.
announce-after :
    {L : Type 0} (unknown : Bytes) (rl : L) (calls : List Bytes)
    → announce (leader_election_config unknown rl) calls ≡ after unknown calls
unfolding leader_election_config
announce-after unknown rl [] = refl
announce-after unknown rl (identity ∷ earlier) =
    ap (on_new_leader unknown identity) (announce-after unknown rl earlier)

-- The election and what it tells.
module _ {L A : Type 0} (new_lock : Bytes → Bytes → Bytes → Outcome L) (unknown ns name id : Bytes)
    (new_multiaddr : Bytes → Outcome A) (started : List (ElectionConfig L))
    (calls : List Bytes) where
  announce-leader :
      (rl : L)
      → leader new_multiaddr (announce (leader_election_config unknown rl) calls)
        ≡ elim (latest_known unknown calls) [ none ↦ blocked | some l ↦ new_multiaddr l ]
  announce-leader rl =
      ap (leader new_multiaddr) (announce-after unknown rl calls)
      ∙ leader-on_new_leader unknown new_multiaddr calls

  abbrev pub Started : Outcome (Unit {0}) × List (ElectionConfig L) → Type 0
  Started r =
      (rl : L) × (config : ElectionConfig L) × (new_lock ns name id ≡ ok rl)
      × (r ≡ (ok tt, started ++ config ∷ []))
      × (config.lock ≡ rl)
      × Accepted config
      × (leader new_multiaddr (announce config calls)
          ≡ elim (latest_known unknown calls) [ none ↦ blocked | some l ↦ new_multiaddr l ])

  abbrev pub NotStarted : Outcome (Unit {0}) × List (ElectionConfig L) → Type 0
  NotStarted r = ((l : L) → new_lock ns name id ≢ ok l) × (r.0 ≢ ok tt) × (r.1 ≡ started)

  run_from :
      (o : Outcome L)
      → new_lock ns name id ≡ o
      → Started (run_or_die new_lock unknown ns name id started)
        ⊎ NotStarted (run_or_die new_lock unknown ns name id started)
  unfolding run_or_die lift modify leader_election_config ◌>>=◌ continue
  run_from (ok rl) made = inl (
    rl,
    leader_election_config unknown rl,
    made,
    rw made refl,
    refl,
    (omega arith, omega arith, omega arith),
    announce-leader rl,
  )
  run_from (err e) made = inr ((λ l same. cc (made, same)), rw made (λ h. cc), rw made refl)
  run_from panic made = inr ((λ l same. cc (made, same)), rw made (λ h. cc), rw made refl)
  run_from blocked made = inr ((λ l same. cc (made, same)), rw made (λ h. cc), rw made refl)

  -- If the lock can be made, `RunOrDie` starts one election, with that lock and durations that the
  -- library accepts, and after the callbacks of any leaders `Leader` waits, if none of them is known, or
  -- returns the address of the latest one that is; if the lock cannot be made, `RunOrDie` does not
  -- succeed and starts none.
  pub run_or_die-started :
      Started (run_or_die new_lock unknown ns name id started)
      ⊎ NotStarted (run_or_die new_lock unknown ns name id started)
  run_or_die-started = run_from (new_lock ns name id) refl
