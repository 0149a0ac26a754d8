-- ===== src/K8s/Events.antt =====
-- pkg/k8s/events/events.go: the events that a node reports of itself to the cluster.
use peerd_oci.Prelude.{
  ◌>>=◌, Option, some, none, panic, Bytes, codes, Outcome, [], if◌then◌else◌, ◌++◌, not, ok,
}
use peerd_oci.K8s.{ClientSet, ClientLibrary, Object}

pub record ObjectReference : Type 0 where
  pub kind : Bytes
  pub name : Bytes
  pub namespace : Bytes
  pub uid : Bytes
  pub api_version : Bytes

pub data EventType : Type 0 where
  normal warning : EventType

-- An event that the recorder of the library got.
pub record Event : Type 0 where
  pub object : ObjectReference
  pub type : EventType
  pub reason : Bytes
  pub message : Bytes

-- `eventRecorder`.
pub record EventRecorder : Type 0 where
  pub obj_ref : ObjectReference

abbrev pub node_ref : Object → ObjectReference
node_ref node = record {
  kind = codes "Node";
  name = node.name;
  namespace = [];
  uid = node.uid;
  api_version = node.api_version;
}

abbrev pub pod_ref : Object → ObjectReference
pod_ref pod = record {
  kind = codes "Pod";
  name = pod.name;
  namespace = pod.namespace;
  uid = pod.uid;
  api_version = pod.api_version;
}

-- `NewRecorder`.
unfoldable pub new_recorder : (K : ClientLibrary) → ClientSet K.Interface → Outcome EventRecorder
new_recorder K k =
    if not k.in_pod
    then (do node ← K.get_node k.interface k.name; ok (record { obj_ref = node_ref node }))
    else do pod ← K.get_pod k.interface k.namespace k.name; ok (record { obj_ref = pod_ref pod })

-- `WithContext`: the value of the context under the key of the package.
unfoldable pub with_context :
    (K : ClientLibrary) → ClientSet K.Interface → Outcome (Option EventRecorder)
with_context K k = do er ← new_recorder K k; ok (some er)

-- `FromContext`, which panics where the context has no value under the key.
unfoldable pub from_context : Option EventRecorder → Outcome EventRecorder
from_context none = panic
from_context (some er) = ok er

-- `Eventf` with a text before the name of the object.
eventf : EventRecorder → EventType → Bytes → Bytes → Event
eventf er type reason text = record {
  object = er.obj_ref;
  type = type;
  reason = reason;
  message = text ++ er.obj_ref.name;
}

unfoldable pub active : EventRecorder → Event
unfolding eventf
active er = eventf er normal (codes "P2PActive") (codes "P2P proxy is active on instance ")

unfoldable pub connected : EventRecorder → Event
unfolding eventf
connected er =
    eventf er normal (codes "P2PConnected") (codes "P2P proxy is connected to cluster on instance ")

unfoldable pub disconnected : EventRecorder → Event
unfolding eventf
disconnected er =
    eventf er warning (codes "P2PDisconnected")
      (codes "P2P proxy is disconnected from cluster on instance ")

unfoldable pub failed : EventRecorder → Event
unfolding eventf
failed er = eventf er warning (codes "P2PFailed") (codes "P2P proxy failed on instance ")

unfoldable pub initializing : EventRecorder → Event
unfolding eventf
initializing er =
    eventf er normal (codes "P2PInitializing") (codes "P2P proxy is initializing on instance ")
