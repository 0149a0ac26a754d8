-- ===== src/K8s/Identity.antt =====
-- For what object of the cluster a node reports its events.
use peerd_oci.Action.Rules.{ok-injective}
use peerd_oci.Prelude.{
  Bytes, Option, Error, ◌≡◌, ok, err, true, ◌⊎◌, Bool, bind_inv, false, Outcome-cases, sym, subst,
  returns, ap, inl, fails, inr, panics, waits, Outcome, panic≢ok, blocked≢ok,
}
use peerd_oci.K8s.{
  ClientSet, ClientLibrary, Object, new_kubernetes_interface, get_pod_namespace,
  peerd_default_namespace, client_set, configured,
}
use peerd_oci.K8s.Events.{new_recorder, EventRecorder, node_ref, pod_ref}

module _ (K : ClientLibrary) where
  open K use {Config, Interface, in_cluster_config, get_node, get_pod}

  -- The recorder reports for a pod, found under the node's name in the namespace of the pod.
  abbrev pub ForPod : Bytes → Bytes → Option Bytes → EventRecorder → Type 0
  ForPod name env_namespace file er =
      (config : Config) × (i : Interface) × (pod : Object) × (in_cluster_config ≡ ok config)
      × (get_pod i (get_pod_namespace env_namespace file) name ≡ ok pod)
      × (er.obj_ref ≡ pod_ref pod)

  -- The recorder reports for a node.
  abbrev pub ForNode : Bytes → EventRecorder → Type 0
  ForNode name er =
      (e : Error) × (i : Interface) × (node : Object) × (in_cluster_config ≡ err e)
      × (get_node i name ≡ ok node)
      × (er.obj_ref ≡ node_ref node)

  client_set_inv :
      (name namespace : Bytes) (in_pod : Bool) (config : Config) {k : ClientSet Interface}
      → client_set K name in_pod namespace config ≡ ok k
      → (i : Interface) × (record {
        interface = i;
        in_pod = in_pod;
        namespace = namespace;
        name = name;
      }
          ≡ k)
  unfolding client_set
  client_set_inv name namespace in_pod config made =
      let (i, _, same) = bind_inv (K.new_for_config config) _ made in (i, ok-injective same)

  in_pod-Identity :
      (name env_namespace : Bytes) (file : Option Bytes) (config : Config) {k : ClientSet Interface}
      {er : EventRecorder}
      → in_cluster_config ≡ ok config
      → client_set K name true (get_pod_namespace env_namespace file) config ≡ ok k
      → new_recorder K k ≡ ok er
      → ForPod name env_namespace file er
  unfolding new_recorder
  in_pod-Identity name env_namespace file config {k} {er} inside set made =
      let (i, same) = client_set_inv name _ true config set in
      let (pod, got, ref) =
        bind_inv (get_pod i (get_pod_namespace env_namespace file) name) _
          (subst (λ k. new_recorder K k ≡ ok er) (sym same) made) in
      (config, i, pod, inside, got, ap (λ r. r.obj_ref) (sym (ok-injective ref)))

  on_node-Identity :
      (name : Bytes) (config : Config) (e : Error) {k : ClientSet Interface} {er : EventRecorder}
      → in_cluster_config ≡ err e
      → client_set K name false peerd_default_namespace config ≡ ok k
      → new_recorder K k ≡ ok er
      → ForNode name er
  unfolding new_recorder
  on_node-Identity name config e {k} {er} outside set made =
      let (i, same) = client_set_inv name _ false config set in
      let (node, got, ref) =
        bind_inv (get_node i name) _ (subst (λ k. new_recorder K k ≡ ok er) (sym same) made) in
      (e, i, node, outside, got, ap (λ r. r.obj_ref) (sym (ok-injective ref)))

  -- The events that a node reports with the recorder of `NewRecorder`, for the client set that
  -- `NewKubernetesInterface` returns, are about its pod, in the namespace that `getPodNamespace` finds,
  -- just if the library finds the configuration of a pod; else they are about its node.
  pub new_recorder-new_kubernetes_interface :
      (kube_config_path name env_namespace : Bytes) (file : Option Bytes) (k : ClientSet Interface)
      (er : EventRecorder)
      → new_kubernetes_interface K kube_config_path name env_namespace file ≡ ok k
      → new_recorder K k ≡ ok er
      → (ForPod name env_namespace file er) ⊎ (ForNode name er)
  unfolding new_kubernetes_interface configured
  new_recorder-new_kubernetes_interface kube_config_path name env_namespace file k er found made =
      let at_config : Outcome Config → Type 0 =
        λ c. configured K kube_config_path name env_namespace file c ≡ ok k in
      elim (Outcome-cases in_cluster_config) [
        | returns config inside ↦ inl (
            in_pod-Identity name env_namespace file config inside (subst at_config inside found)
              made)
        | fails e outside ↦
            let (config, _, set) =
              bind_inv (K.build_config_from_flags kube_config_path) _
                (subst at_config outside found) in
            inr (on_node-Identity name config e outside set made)
        | panics p ↦ absurd (panic≢ok (subst at_config p found))
        | waits w ↦ absurd (blocked≢ok (subst at_config w found))
      ]
