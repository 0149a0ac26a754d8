-- ===== src/Tests/Router.antt =====
-- A node that starts, and the cluster it starts in.
use peerd_oci.K8s.Election.Config.{run_or_die}
use peerd_oci.K8s.Election.Config.Run.{Started, NotStarted, run_or_die-started}
use peerd_oci.Action.{attempt, settle, lift, modify, pure, continue}
use peerd_oci.Prelude.{
  codes, bytes_eq, Bytes, List, ◌∷◌, some, none, ◌≡◌, false, ok, [], some-injective, panic, refl,
  true, ℕ, ap, err, sym, k8s_failure, ◌⊎◌, Outcome,
}
use peerd_oci.Router.{peer_of, peers_of, AddrInfo}
use peerd_oci.Router.Active
use peerd_oci.Router.Active.{
  Lookup, Place, System, Reach, put_lookup, looping, swapping, reporting, send, swap, report,
}
use peerd_oci.Router.Active.Once.{Reach-Announced}
use peerd_oci.Reader.{PeerInfo}
use peerd_oci.Prelude.{◌≤◌, ◌++◌, length}
use peerd_oci.Router.Host.{
  Multiaddr, advertised, loopback, nowhere, here, further, peer_of-advertised, ips, url_of,
  Routable,
}
use peerd_oci.Router.Start.{
  Libraries, new_router, new_host, bootstrap_peers, bootstrap_from, bootstrap_at,
}
use peerd_oci.Router.Start.Alone.{new_router-nowhere}
use peerd_oci.Router.Start.Leader.{bootstrap_peers-StartsFrom, StartsFrom}
use peerd_oci.K8s.{ClientLibrary, Object, leader, on_new_leader}
use peerd_oci.K8s.Election.{latest_known}
use peerd_oci.K8s.Election.Calls.{begin, later}
use peerd_oci.K8s.Events.{EventRecorder, connected, active}

abbrev local : Multiaddr
local = record { text = codes "/ip4/127.0.0.1/tcp/5003"; ip4 = some loopback }

abbrev local6 : Multiaddr
local6 = record { text = codes "/ip6/::1/tcp/5003"; ip4 = none }

abbrev pub outside : Multiaddr
outside = record { text = codes "/ip4/10.0.0.7/tcp/5003"; ip4 = some (codes "10.0.0.7") }

local-Routable : (v : Bytes) → ¬ (Routable local v)
unfolding bytes_eq
local-Routable v (ip, text, far) =
    let same : loopback ≡ v = some-injective _ _ ip in
    let near : bytes_eq v loopback ≡ true = ap (λ x. bytes_eq x loopback) (sym same) in
    cc (near, far)

local6-Routable : (v : Bytes) → ¬ (Routable local6 v)
local6-Routable v (ip, _, _) = cc

peer_of-advertised_example :
    peer_of
      (codes "n")
      (codes "5001")
      false
      (record { id = codes "m"; addrs = ips (advertised (local ∷ local6 ∷ outside ∷ [])) })
    ≡ some (record { id = codes "m"; http_host = url_of (codes "5001") (codes "10.0.0.7") })
unfolding bytes_eq
peer_of-advertised_example =
    peer_of-advertised (codes "n") (codes "5001") (codes "m") false (local ∷ local6 ∷ outside ∷ [])
      (some (codes "10.0.0.7"))
      (further local-Routable (further local6-Routable (here (refl, refl, refl)))) refl

-- A machine whose host listens on these addresses.
abbrev pub machine : List Multiaddr → Libraries
machine listened = record {
  State = List Multiaddr;
  Address = Bytes;
  Host = Bytes;
  split_host_port = λ addr. ok (codes "0.0.0.0", addr);
  new_multiaddr = λ text. ok text;
  new_host = λ addr factory s. (ok addr, factory listened);
  host_addrs = λ host s. s;
  host_id = λ host. codes "n";
  run_election = λ id s. (ok tt, s);
  new_dht = λ host s. (ok tt, s);
  bootstrap = λ s. (ok tt, s);
  new_cache = ok tt;
  new_identity = λ host. ok tt;
}

new_router-nowhere_example :
    new_router (machine (local ∷ local6 ∷ [])) (codes "5003") (codes "5001") []
    ≡ (panic, advertised (local ∷ local6 ∷ []))
unfolding new_host peerd_oci.Action.◌>>=◌
new_router-nowhere_example =
    new_router-nowhere (machine (local ∷ local6 ∷ [])) (codes "5003") (codes "5001") _ [] _
      (local ∷ local6 ∷ []) refl refl (further local-Routable (further local6-Routable nowhere))

abbrev pub recorder : EventRecorder
recorder = record {
  obj_ref = record {
    kind = codes "Node";
    name = codes "n";
    namespace = [];
    uid = codes "1";
    api_version = codes "v1";
  };
}

abbrev peer_m : AddrInfo
peer_m = record { id = codes "m"; addrs = [] }

abbrev info_of : Bytes → Outcome AddrInfo
info_of addr = ok (record { id = addr; addrs = [] })

bootstrap_peers-StartsFrom_example :
    ((peer_m ∷ []) ≡ [])
    ⊎ ((id : Bytes) × (latest_known [] (codes "m" ∷ []) ≡ some id)
        × StartsFrom info_of recorder
            (codes "n")
            []
            (ok id)
            (peer_m ∷ [])
            (connected recorder ∷ []))
unfolding bytes_eq bootstrap_peers bootstrap_from bootstrap_at leader on_new_leader attempt settle
    lift modify pure peerd_oci.Action.◌>>=◌ continue
bootstrap_peers-StartsFrom_example =
    bootstrap_peers-StartsFrom info_of recorder (codes "n") [] (λ text. ok text) [] (codes "m" ∷ [])
      (peer_m ∷ []) (connected recorder ∷ []) refl

-- A pod of the namespace "p".
abbrev pub pod : Object
pod = record { name = codes "n"; namespace = codes "p"; uid = codes "2"; api_version = codes "v1" }

abbrev pub cluster : ClientLibrary
cluster = record {
  Config = ℕ;
  Interface = ℕ;
  in_cluster_config = ok 1;
  build_config_from_flags = λ path. ok 0;
  new_for_config = λ c. ok c;
  get_node = λ i name. err k8s_failure;
  get_pod = λ i namespace name. ok pod;
}

-- A lookup that sent its only provider and reported that the node is active.
abbrev only_peer : AddrInfo
only_peer = record { id = codes "m"; addrs = some (codes "10.0.0.7") ∷ [] }

abbrev looked_up : List AddrInfo → List PeerInfo → Place → Lookup
looked_up left sent place = record {
  providers = only_peer ∷ [];
  left = left;
  sent = sent;
  place = place;
}

abbrev its_url : PeerInfo
its_url = record { id = codes "m"; http_host = codes "https://10.0.0.7:5001" }

-- All lookups find the one provider; the first of them sent it and then reported.
abbrev all_start : ℕ → Lookup
all_start i = looked_up (only_peer ∷ []) [] looping

abbrev first_sent : ℕ → Lookup
first_sent = put_lookup all_start 0 (looked_up [] (its_url ∷ []) swapping)

abbrev first_swapped : ℕ → Lookup
first_swapped = put_lookup first_sent 0 (looked_up [] (its_url ∷ []) reporting)

abbrev reported : System
reported = record {
  announced = record { is_active = true; events = active recorder ∷ [] };
  lookups = put_lookup first_swapped 0 (looked_up [] (its_url ∷ []) looping);
}

reported-Reach : Reach (codes "n") (codes "5001") false reported
unfolding peer_of bytes_eq
reported-Reach =
    Active.later 0
      (Active.later 0 (Active.later 0 (Active.begin (λ i. only_peer ∷ [])) (send refl refl refl))
        (swap refl refl))
      (report recorder refl)

Reach-Announced_example :
    (length reported.announced.events ≤ 1)
    × ((i : ℕ)
        → peers_of (codes "n") (codes "5001") false (reported.lookups i).providers
          ≡ (reported.lookups i).sent
            ++ peers_of (codes "n") (codes "5001") false (reported.lookups i).left)
Reach-Announced_example = Reach-Announced (codes "n") (codes "5001") false reported-Reach

-- A lock that can always be made.
abbrev any_lock : Bytes → Bytes → Bytes → Outcome Bytes
any_lock ns name id = ok id

run_or_die-started_example :
    Started any_lock []
      (codes "peerd-ns")
      (codes "peerd-leader-election")
      (codes "n")
      ok
      []
      (codes "m" ∷ [])
      (run_or_die any_lock [] (codes "peerd-ns") (codes "peerd-leader-election") (codes "n") [])
    ⊎ NotStarted any_lock []
        (codes "peerd-ns")
        (codes "peerd-leader-election")
        (codes "n")
        ok
        []
        (codes "m" ∷ [])
        (run_or_die any_lock [] (codes "peerd-ns") (codes "peerd-leader-election") (codes "n") [])
run_or_die-started_example =
    run_or_die-started any_lock [] (codes "peerd-ns") (codes "peerd-leader-election") (codes "n") ok
      [] (codes "m" ∷ [])
