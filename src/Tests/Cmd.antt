-- ===== src/Tests/Cmd.antt =====
-- A server that starts and ends, and its clients.
use peerd_oci.Action.{Action}
use peerd_oci.Prelude.{
  codes, [], Bytes, none, ◌≡◌, bytes_eq, true, ◌⊎◌, ok, false, refl, ◌∷◌, err, io_failure,
}
use peerd_oci.Int64.{pos}
use peerd_oci.Router.Start.{NewRouter}
use peerd_oci.Store.Start.{Workers}
use peerd_oci.Cmd.{ServerCmd, server_command, Process}
use peerd_oci.Cmd.Recorder.{Environment, find_recorder}
use peerd_oci.Cmd.Reports.{server_command-reported, reported}
use peerd_oci.Cmd.Tasks.{
  Group, Task, Reach, Step, begin, later, terminate, call_shutdown, return, listen, http, prom,
}
use peerd_oci.Cmd.Tasks.Metrics.{Reach-listen_prom}
use peerd_oci.Cmd.Tasks.Stopping.{all_but_prom_end, Steps}
use peerd_oci.Peernet.{
  TlsLibrary, PeerNetwork, new_network, http_client_for, round_tripper_for, default_config,
}
use peerd_oci.Peernet.Handshake.{new_network-accepts, client_accepts, accepts}
use peerd_oci.Tests.Router.{machine, cluster, outside}

abbrev args : ServerCmd
args = record {
  http_addr = codes "127.0.0.1:5000";
  https_addr = codes "0.0.0.0:5001";
  router_addr = codes "0.0.0.0:5003";
  prom_addr = codes "0.0.0.0:5004";
  prefetch_workers = pos 50;
}

abbrev env : Environment
env = record {
  kube_config_path = [];
  node_name = codes "n";
  namespace = codes "p";
  namespace_file = none;
}

-- The port of the metrics is taken.
abbrev serve :
    NewRouter Bytes → Workers → ServerCmd → Action (machine (outside ∷ [])).State (Unit {0})
serve r workers _ s = (err io_failure, s)

abbrev before : Process (machine (outside ∷ [])).State
before = record { libs = []; events = [] }

server_command-reported_example :
    (server_command cluster (machine (outside ∷ [])) serve env args before).1.events
    ≡ reported
        (find_recorder cluster (machine (outside ∷ [])).split_host_port env args.https_addr)
        (server_command cluster (machine (outside ∷ [])) serve env args before).0
server_command-reported_example =
    server_command-reported cluster (machine (outside ∷ [])) serve env args before

-- The signal comes, and the server for the node has come to its end.
abbrev Run : Type 0
Run = (g : Group) × Reach g

abbrev step : (run : Run) {h : Group} → Step run.0 h → Run
step run s = (_, later run.1 s)

abbrev stopped : Run
stopped =
    step (step (step (_, begin) terminate) (call_shutdown http refl refl))
      (return (listen http) none refl refl)

Reach-listen_prom_example : stopped.0.running (listen prom) ≡ true
Reach-listen_prom_example = Reach-listen_prom stopped.0 stopped.1 refl

all_but_prom_end_example :
    (h : Group) × Steps stopped.0 h
    × (h.error ≡ none)
    × ((t : Task) → (t ≡ listen prom) ⊎ (h.running t ≡ false))
all_but_prom_end_example = all_but_prom_end stopped.0 stopped.1 refl

-- Certificates are the ids of their peers, and no root is trusted.
abbrev names : TlsLibrary
names = record {
  PrivKey = Bytes;
  Identity = Bytes;
  Certificate = Bytes;
  new_identity = λ key. ok key;
  certificates = λ id pid. id ∷ [];
  verify_peer_certificate =
      λ id pid shown. elim shown [ [] ↦ false | cert ∷ rest ↦ bytes_eq cert pid ];
}

abbrev node : PeerNetwork Bytes Bytes
node = record {
  id = codes "n";
  default_tls_config = default_config names (codes "n");
  default_transport = record {
    tls_client_config = default_config names (codes "n");
    max_conns_per_host = 100;
  };
}

new_network-accepts_example :
    (client_accepts (http_client_for names node (codes "m")) (λ shown. false) (codes "m" ∷ [])
      ≡ true)
    × (accepts
          (round_tripper_for names node (codes "m")).tls_client_config
          (λ shown. false)
          (codes "m" ∷ [])
        ≡ true)
unfolding bytes_eq new_network
new_network-accepts_example =
    new_network-accepts names (codes "n") node (codes "m") (λ shown. false) (codes "m" ∷ []) refl
