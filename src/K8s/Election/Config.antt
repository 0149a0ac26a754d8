-- ===== src/K8s/Election/Config.antt =====
-- `RunOrDie` of pkg/k8s/election/election.go, with the configuration of the election.
pub mod Run
use peerd_oci.Prelude.{Bytes, Bool, Outcome, List, ◌++◌, ◌∷◌, [], true, ℕ, ◌*◌, ◌^◌}
use peerd_oci.K8s.{LeaderElection, on_new_leader}
use peerd_oci.Action.{Action, lift, modify, ◌>>=◌}

-- `leaderelection.LeaderElectionConfig`: durations in nanoseconds, and of its callbacks the one that
-- does something.
pub record ElectionConfig (L : Type 0) : Type 0 where
  pub lock : L
  pub release_on_cancel : Bool
  pub lease_duration : ℕ
  pub renew_deadline : ℕ
  pub retry_period : ℕ
  pub on_new_leader : Bytes → LeaderElection → LeaderElection

-- `time.Second`.
abbrev pub second : ℕ
second = 10 ^ 9

-- `leaderElectionConfig`; `unknown` is the library's name for no leader.
unfoldable pub leader_election_config : {L : Type 0} → Bytes → L → ElectionConfig L
leader_election_config unknown rl = record {
  lock = rl;
  release_on_cancel = true;
  lease_duration = 10 * second;
  renew_deadline = 5 * second;
  retry_period = 2 * second;
  on_new_leader = on_new_leader unknown;
}

-- `RunOrDie`, with `resourcelock.New` for a lease by its namespace, name and identity. The state is
-- the elections that were started, each as a goroutine.
unfoldable pub run_or_die :
    {L : Type 0}
    → (Bytes → Bytes → Bytes → Outcome L)
    → Bytes
    → Bytes
    → Bytes
    → Bytes
    → Action (List (ElectionConfig L)) (Unit {0})
run_or_die new_lock unknown ns name id = do
  rl ← lift (new_lock ns name id)
  modify (λ started. started ++ leader_election_config unknown rl ∷ [])
