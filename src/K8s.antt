-- ===== src/K8s.antt =====
-- pkg/k8s: the namespace of this node (k8s.go) and the election of a leader (election/election.go).
-- The client library is left out: it calls `on_new_leader`, and parses addresses.
pub mod Election
pub mod Events
pub mod Identity
use peerd_oci.Prelude.{
  ◌>>=◌, Bytes, codes, Option, Bool, [], if◌then◌else◌, Outcome, not, false, bytes_eq, blocked,
  true, some, none, ok, err, panic,
}

-- `peerdDefaultNamespace`.
abbrev pub peerd_default_namespace : Bytes
peerd_default_namespace = codes "peerd-ns"

-- `getPodNamespace`, by the environment variable and the file of the service account, if it is there.
unfoldable pub get_pod_namespace : Bytes → Option Bytes → Bytes
get_pod_namespace env_namespace file =
    if not (bytes_eq env_namespace [])
    then env_namespace
    else elim file [ some contents ↦ contents | none ↦ peerd_default_namespace ]

-- `leaderElection`: the leader, and whether the channel that `Leader` waits for is closed.
pub record LeaderElection : Type 0 where
  pub id : Bytes
  pub elected : Bool

unfoldable pub new_election : LeaderElection
new_election = record { id = []; elected = false }

-- `onNewLeader`; `unknown` is the library's name for no leader.
unfoldable pub on_new_leader : Bytes → Bytes → LeaderElection → LeaderElection
on_new_leader unknown identity le =
    if bytes_eq identity unknown then le else record { id = identity; elected = true }

-- `Leader`, with the parser of addresses.
unfoldable pub leader {ℓ} : {A : Type ℓ} → (Bytes → Outcome A) → LeaderElection → Outcome A
leader new_multiaddr le = if le.elected then new_multiaddr le.id else blocked

-- `ClientSet`, with the client that it embeds.
pub record ClientSet (I : Type 0) : Type 0 where
  pub interface : I
  pub in_pod : Bool
  pub namespace : Bytes
  pub name : Bytes

-- The client library: the configuration in a pod, that of a file, and the client for one. `Object` is
-- what the API server tells of a node or a pod.
pub record Object : Type 0 where
  pub name : Bytes
  pub namespace : Bytes
  pub uid : Bytes
  pub api_version : Bytes

pub record ClientLibrary : Type 1 where
  pub Config : Type 0
  pub Interface : Type 0
  pub in_cluster_config : Outcome Config
  pub build_config_from_flags : Bytes → Outcome Config
  pub new_for_config : Config → Outcome Interface
  pub get_node : Interface → Bytes → Outcome Object
  pub get_pod : Interface → Bytes → Bytes → Outcome Object

module _ (K : ClientLibrary) where
  open K use {Config, Interface, in_cluster_config, build_config_from_flags, new_for_config}

  unfoldable pub client_set : Bytes → Bool → Bytes → Config → Outcome (ClientSet Interface)
  client_set name in_pod namespace config = do
    interface ← new_for_config config
    ok (record { interface = interface; in_pod = in_pod; namespace = namespace; name = name })

  -- What `NewKubernetesInterface` makes of the result of `InClusterConfig`, with the variable and the
  -- file that `getPodNamespace` looks at.
  unfoldable pub configured :
      Bytes → Bytes → Bytes → Option Bytes → Outcome Config → Outcome (ClientSet Interface)
  configured kube_config_path name env_namespace file (ok config) =
      client_set name true (get_pod_namespace env_namespace file) config
  configured kube_config_path name env_namespace file (err e) = do
    config ← build_config_from_flags kube_config_path
    client_set name false peerd_default_namespace config
  configured kube_config_path name env_namespace file panic = panic
  configured kube_config_path name env_namespace file blocked = blocked

  -- `NewKubernetesInterface`.
  unfoldable pub new_kubernetes_interface :
      Bytes → Bytes → Bytes → Option Bytes → Outcome (ClientSet Interface)
  new_kubernetes_interface kube_config_path name env_namespace file =
      configured kube_config_path name env_namespace file in_cluster_config
