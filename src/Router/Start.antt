-- ===== src/Router/Start.antt =====
-- pkg/discovery/routing/router.go: `newHost` and `NewRouter`, on the libraries of libp2p and of the
-- cluster, which are an interface.
pub mod Alone
pub mod Leader
use peerd_oci.Prelude.{
  Bytes, List, Outcome, codes, ◌++◌, panic, ◌∷◌, ok, [], if◌then◌else◌, bytes_eq,
}
use peerd_oci.Router.{AddrInfo}
use peerd_oci.Router.Host.{Multiaddr, advertised}
use peerd_oci.K8s.{LeaderElection, leader}
use peerd_oci.K8s.Events.{Event, EventRecorder, connected, disconnected}
use peerd_oci.Action.{Action, pure, lift, gets, modify, attempt, done, failed, ◌>>=◌, ◌>>◌}

-- What is called of the libraries, in the order of `NewRouter`.
pub record Libraries : Type 1 where
  pub State : Type 0
  pub Address : Type 0
  pub Host : Type 0
  pub split_host_port : Bytes → Outcome (Bytes × Bytes)
  pub new_multiaddr : Bytes → Outcome Address
  pub new_host : Address → (List Multiaddr → List Multiaddr) → Action State Host
  pub host_addrs : Host → State → List Multiaddr
  pub host_id : Host → Bytes
  pub run_election : Bytes → Action State (Unit {0})
  pub new_dht : Host → Action State (Unit {0})
  pub bootstrap : Action State (Unit {0})
  pub new_cache : Outcome (Unit {0})
  pub new_identity : Host → Outcome (Unit {0})

-- The fields of `router` that `NewRouter` is given or makes.
pub record NewRouter (H : Type 0) : Type 0 where
  pub host : H
  pub peer_registry_port : Bytes

module _ (L : Libraries) where
  open L use {State, Host, Address}

  -- `newHost`.
  unfoldable pub new_host : Bytes → Action State Host
  new_host addr = do
    (h, p) ← lift (L.split_host_port addr)
    host_addr ← lift (L.new_multiaddr (codes "/ip4/" ++ (h ++ (codes "/tcp/" ++ p))))
    L.new_host host_addr advertised

  -- The node's own address: the first one, if there is one.
  unfoldable pub self_of : Host → List Multiaddr → Outcome Bytes
  self_of host [] = panic
  self_of host (addr ∷ addrs) = ok (addr.text ++ (codes "/p2p/" ++ L.host_id host))

  -- `NewRouter`.
  unfoldable pub new_router : Bytes → Bytes → Action State (NewRouter Host)
  new_router host_addr peer_registry_port = do
    host ← new_host host_addr
    addrs ← gets (L.host_addrs host)
    self ← lift (self_of host addrs)
    L.run_election self
    L.new_dht host
    L.bootstrap
    lift L.new_cache
    lift (L.new_identity host)
    pure (record { host = host; peer_registry_port = peer_registry_port })

-- What is made of the leader's address once it is parsed: the peers that the hash table starts from.
unfoldable pub bootstrap_at :
    EventRecorder → Bytes → Outcome AddrInfo → Action (List Event) (List AddrInfo)
bootstrap_at er host_id lookup = do
  parsed ← attempt (lift lookup)
  elim parsed [
    | failed e ↦ pure []
    | done info ↦ do
      modify (λ events. events ++ connected er ∷ [])
      pure (if bytes_eq info.id host_id then [] else info ∷ [])
  ]

-- What is made of the result of `Leader`.
unfoldable pub bootstrap_from :
    {A : Type 0}
    → (A → Outcome AddrInfo)
    → EventRecorder
    → Bytes
    → Outcome A
    → Action (List Event) (List AddrInfo)
bootstrap_from addr_info er host_id found = do
  answer ← attempt (lift found)
  elim answer [
    | failed e ↦ do modify (λ events. events ++ disconnected er ∷ []); pure []
    | done addr ↦ bootstrap_at er host_id (addr_info addr)
  ]

-- The function that `NewRouter` gives the hash table, with the events that it reports.
unfoldable pub bootstrap_peers :
    {A : Type 0}
    → (Bytes → Outcome A)
    → (A → Outcome AddrInfo)
    → EventRecorder
    → Bytes
    → LeaderElection
    → Action (List Event) (List AddrInfo)
bootstrap_peers new_multiaddr addr_info er host_id le =
    bootstrap_from addr_info er host_id (leader new_multiaddr le)
