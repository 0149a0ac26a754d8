-- ===== src/K8s/Election.antt =====
-- Whom `Leader` returns after any calls of `onNewLeader`.
pub mod Calls
pub mod Config
use peerd_oci.Prelude.{
  Bytes, List, Outcome, Option, ◌≡◌, ◌∷◌, none, if◌then◌else◌, blocked, [], bytes_eq, Bool-cases,
  inl, inr, refl,
}
use peerd_oci.K8s.{leader, on_new_leader, new_election, LeaderElection, some}

-- The calls, the latest first.
abbrev pub after : Bytes → List Bytes → LeaderElection
after unknown [] = new_election
after unknown (identity ∷ earlier) = on_new_leader unknown identity (after unknown earlier)

-- The latest leader that is known.
abbrev pub latest_known : Bytes → List Bytes → Option Bytes
latest_known unknown [] = none
latest_known unknown (identity ∷ earlier) =
    if bytes_eq identity unknown then latest_known unknown earlier else some identity

-- After any calls of `onNewLeader`, `Leader` returns the address of the latest leader that is known,
-- and waits for ever if none was known yet.
pub leader-on_new_leader :
    {A : Type 0} (unknown : Bytes) (new_multiaddr : Bytes → Outcome A) (calls : List Bytes)
    → leader new_multiaddr (after unknown calls)
      ≡ elim (latest_known unknown calls) [ none ↦ blocked | some id ↦ new_multiaddr id ]
unfolding leader on_new_leader new_election
leader-on_new_leader unknown new_multiaddr [] = refl
leader-on_new_leader unknown new_multiaddr (identity ∷ earlier) =
    elim (Bool-cases (bytes_eq identity unknown)) [
      | inl none_known ↦ rw none_known (leader-on_new_leader unknown new_multiaddr earlier)
      | inr known ↦ rw known
    ]
