-- ===== src/Cmd/Recorder.antt =====
-- cmd/proxy/main.go: the part of `serverCommand` before there is a recorder of events.
use peerd_oci.Prelude.{◌>>=◌, Bytes, Option, Outcome, ok}
use peerd_oci.K8s.{ClientLibrary, new_kubernetes_interface}
use peerd_oci.K8s.Events.{EventRecorder, with_context, from_context}

-- What a node finds in its environment.
pub record Environment : Type 0 where
  pub kube_config_path : Bytes
  pub node_name : Bytes
  pub namespace : Bytes
  pub namespace_file : Option Bytes

-- The port of the address of the server, and the recorder.
unfoldable pub find_recorder :
    (K : ClientLibrary)
    → (Bytes → Outcome (Bytes × Bytes))
    → Environment
    → Bytes
    → Outcome (Bytes × EventRecorder)
find_recorder K split_host_port env https_addr = do
  (host, https_port) ← split_host_port https_addr
  k ← new_kubernetes_interface K env.kube_config_path env.node_name env.namespace env.namespace_file
  ctx ← with_context K k
  er ← from_context ctx
  ok (https_port, er)
