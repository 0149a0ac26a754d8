-- ===== src/K8s/Election/Calls.antt =====
-- pkg/k8s/election/election.go: `onNewLeader` step by step, with calls of `Leader` between the steps.
-- The library calls `onNewLeader` for one leader after the other.
use peerd_oci.Prelude.{Bytes, List, ◌≡◌, bytes_eq, [], false, true, ◌∷◌, Outcome, blocked, ◌⊎◌}
use peerd_oci.K8s.{LeaderElection, new_election, leader}

-- Where a call of `onNewLeader` stands.
pub data Callback : Type 0 where
  idle : Callback
  closed : Bytes → Callback  -- the channel is closed, and `le.id` is not set yet

-- The state, with the leaders that the library has announced and that are known, the latest first.
pub record Elected : Type 0 where
  pub election : LeaderElection
  pub callback : Callback
  pub announced : List Bytes

pub data Step (unknown : Bytes) (s : Elected) : Elected → Type 0 where
  -- A leader that is not known is not looked at.
  ignore : s.callback ≡ idle → Step unknown s s
  -- The channel is closed now, or was closed by an earlier call.
  close :
      (identity : Bytes)
      → s.callback ≡ idle
      → bytes_eq identity unknown ≡ false
      → Step unknown s (record {
        election = record s.election { elected = true };
        callback = closed identity;
        announced = identity ∷ s.announced;
      })
  -- Under the lock.
  set :
      (identity : Bytes)
      → s.callback ≡ closed identity
      → Step unknown s
          (record s { election = record s.election { id = identity }; callback = idle })

pub data Reach (unknown : Bytes) : Elected → Type 0 where
  begin : Reach unknown (record { election = new_election; callback = idle; announced = [] })
  later : {s t : Elected} → Reach unknown s → Step unknown s t → Reach unknown t

-- What holds of the leader that `Leader` returns between the steps.
pub data Current : Elected → Type 0 where
  waiting :
      {s : Elected}
      → s.election.elected ≡ false
      → s.election.id ≡ []
      → s.announced ≡ []
      → s.callback ≡ idle
      → Current s
  latest :
      {s : Elected} {identity : Bytes} {earlier : List Bytes}
      → s.election.elected ≡ true
      → s.callback ≡ idle
      → s.announced ≡ identity ∷ earlier
      → s.election.id ≡ identity
      → Current s
  previous :
      {s : Elected} {identity before : Bytes} {earlier : List Bytes}
      → s.election.elected ≡ true
      → s.callback ≡ closed identity
      → s.announced ≡ identity ∷ before ∷ earlier
      → s.election.id ≡ before
      → Current s
  unset :
      {s : Elected} {identity : Bytes}
      → s.election.elected ≡ true
      → s.callback ≡ closed identity
      → s.announced ≡ identity ∷ []
      → s.election.id ≡ []
      → Current s

-- The leader before the latest one; the field is empty at first.
abbrev pub latest_or_empty : List Bytes → Bytes
latest_or_empty [] = []
latest_or_empty (identity ∷ earlier) = identity

-- What `Leader` may return once these leaders were announced.
abbrev pub Answers : {A : Type 0} → (Bytes → Outcome A) → Elected → List Bytes → Type 0
Answers new_multiaddr s [] = leader new_multiaddr s.election ≡ blocked
Answers new_multiaddr s (identity ∷ earlier) =
    (leader new_multiaddr s.election ≡ new_multiaddr identity)
    ⊎ ((s.callback ≡ closed identity)
        × (leader new_multiaddr s.election ≡ new_multiaddr (latest_or_empty earlier)))
