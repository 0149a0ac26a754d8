-- ===== src/Metrics/Names.antt =====
-- The names of the metrics, and their labels, as the library takes them.
use peerd_oci.Action.{pure}
use peerd_oci.Metrics.{
  Prometheus, PromMetrics, record_peer_discovery, HistogramVec, request_duration_hist,
  record_peer_response, ℤ, peer_discovery_duration_hist, record_request, record_upstream_response,
  peer_response_duration_hist, upstream_response_duration_hist, new_prom_metrics, pure,
  with_context,
}
use peerd_oci.Prelude.{
  ◌∷◌, ◌++◌, ◌≡◌, codes, Bytes, bytes_eq, List, arith, Bool, [], ok, refl, false, ◌||◌, true, panic,
  length, ◌∙◌, bytes_eq_refl, All, ap,
}
use peerd_oci.Action.Steps.{bind-ok, bind-panic}

-- `bytes_eq` of two texts with one start.
bytes_eq-append : (p a b : Bytes) → bytes_eq (p ++ a) (p ++ b) ≡ bytes_eq a b
unfolding bytes_eq
bytes_eq-append [] a b = refl
bytes_eq-append (c ∷ p) a b = ground (arith, bytes_eq-append p a b)

-- What the documentation of the library says: `MustRegister` panics if a metric of the same name is
-- registered, and else registers it if its descriptor is valid; `WithLabelValues` returns if there are
-- as many values as labels and each of them is UTF-8.
pub record Documented (P : Prometheus) : Type 0 where
  pub taken : P.State → Bytes → Bool
  pub valid : HistogramVec P.Float → Bool
  pub utf8 : Bytes → Bool
  pub registers :
      (v : HistogramVec P.Float) (s : P.State)
      → valid v ≡ true
      → taken s v.name ≡ false
      → (t : P.State) × (P.must_register v s ≡ (ok tt, t))
        × ((n : Bytes) → taken t n ≡ (bytes_eq v.name n || taken s n))
  pub refuses :
      (v : HistogramVec P.Float) (s : P.State)
      → taken s v.name ≡ true
      → (P.must_register v s).0 ≡ panic
  pub observes :
      (v : HistogramVec P.Float) (values : List Bytes) (x : P.Float) (s : P.State)
      → length values ≡ length v.labels
      → All (λ text. utf8 text ≡ true) values
      → (P.observe v values x s).0 ≡ ok tt

-- The four names.
abbrev pub metric_names : Bytes → List Bytes
metric_names prefix =
    (prefix ++ codes "_request_duration_seconds")
    ∷ (prefix ++ codes "_peer_discovery_duration_seconds")
    ∷ (prefix ++ codes "_peer_response_speed_mib_per_second")
    ∷ (prefix ++ codes "_upstream_response_speed_mib_per_second")
    ∷ []

-- The four histograms.
abbrev pub histograms : (P : Prometheus) → Bytes → List (HistogramVec P.Float)
histograms P prefix =
    request_duration_hist P prefix
    ∷ peer_discovery_duration_hist P prefix
    ∷ peer_response_duration_hist P prefix
    ∷ upstream_response_duration_hist P prefix
    ∷ []

-- What is recorded of a node: an address, an operation, the host of the origin, the method and the
-- handler of a request.
pub record Labels : Type 0 where
  pub ip : Bytes
  pub op : Bytes
  pub hostname : Bytes
  pub method : Bytes
  pub handler : Bytes

abbrev pub texts : Labels → List Bytes
texts l = l.ip ∷ l.op ∷ l.hostname ∷ l.method ∷ l.handler ∷ []

-- Metrics in which these labels can be recorded: no call panics, whatever is measured and in
-- whatever state.
pub record Records (P : Prometheus) (m : PromMetrics P.Float) (l : Labels) : Type 0 where
  pub discovery : (x : P.Float) (s : P.State) → (record_peer_discovery P m l.ip x s).0 ≡ ok tt
  pub response :
      (key : Bytes) (x : P.Float) (n : ℤ) (s : P.State)
      → (record_peer_response P m l.ip key l.op x n s).0 ≡ ok tt
  pub request : (x : P.Float) (s : P.State) → (record_request P m l.method l.handler x s).0 ≡ ok tt
  pub upstream :
      (key : Bytes) (x : P.Float) (n : ℤ) (s : P.State)
      → (record_upstream_response P m l.hostname key l.op x n s).0 ≡ ok tt

module _ (P : Prometheus) (doc : Documented P) (name prefix : Bytes) where
  -- The metrics that `NewPromMetrics` returns.
  abbrev pub metrics : PromMetrics P.Float
  metrics = record {
    name = name;
    request_duration = request_duration_hist P prefix;
    peer_discovery_duration = peer_discovery_duration_hist P prefix;
    peer_response_speed = peer_response_duration_hist P prefix;
    upstream_response_speed = upstream_response_duration_hist P prefix;
  }

  metrics-Records :
      (l : Labels) → All (λ text. doc.utf8 text ≡ true) (name ∷ texts l) → Records P metrics l
  unfolding record_peer_discovery record_peer_response record_request record_upstream_response
      request_duration_hist peer_discovery_duration_hist peer_response_duration_hist
      upstream_response_duration_hist
  metrics-Records l (self, (ip, (op, (hostname, (method, (handler, _)))))) = record {
    discovery = λ x s. doc.observes _ _ _ s refl (self, (ip, tt));
    response = λ key x n s. doc.observes _ _ _ s refl (self, (ip, (op, tt)));
    request = λ x s. doc.observes _ _ _ s refl (self, (method, (handler, tt)));
    upstream = λ key x n s. doc.observes _ _ _ s refl (self, (hostname, (op, tt)));
  }

  -- A registration of one more metric.
  registers :
      (v : HistogramVec P.Float) (s : P.State)
      → doc.valid v ≡ true
      → doc.taken s v.name ≡ false
      → (t : P.State) × (P.must_register v s ≡ (ok tt, t))
        × (doc.taken t v.name ≡ true)
        × ((n : Bytes) → bytes_eq v.name n ≡ false → doc.taken t n ≡ doc.taken s n)
  registers v s proper free =
      let (t, done, names) = doc.registers v s proper free in
      (t, done, names v.name ∙ rw (bytes_eq_refl v.name) refl, λ n other. names n ∙ rw other refl)

  -- Where the first name is taken.
  new_prom_metrics-taken :
      (other : Bytes) (s : P.State)
      → doc.taken s (request_duration_hist P prefix).name ≡ true
      → new_prom_metrics P other prefix s
        ≡ (panic, (P.must_register (request_duration_hist P prefix) s).1)
  unfolding new_prom_metrics
  new_prom_metrics-taken other s again =
      let v = request_duration_hist P prefix in
      bind-panic (P.must_register v) _ s
        (ap (λ r. (r, (P.must_register v s).1)) (doc.refuses v s again))

  -- On a registry in which none of the four names is taken, and with a prefix for which the library
  -- takes the descriptors of the histograms for valid, `NewPromMetrics` returns metrics in which labels
  -- can be recorded without a panic, if they and the name of the node are UTF-8, whatever is measured
  -- and in whatever state, and after it `WithContext` with the same prefix panics.
  pub new_prom_metrics-Records :
      (s : P.State) (l : Labels)
      → All (λ v. doc.valid v ≡ true) (histograms P prefix)
      → All (λ n. doc.taken s n ≡ false) (metric_names prefix)
      → All (λ text. doc.utf8 text ≡ true) (name ∷ texts l)
      → (t : P.State) × (new_prom_metrics P name prefix s ≡ (ok metrics, t))
        × Records P metrics l
        × ((other : Bytes) → (with_context P other prefix t).0 ≡ panic)
  unfolding new_prom_metrics pure with_context request_duration_hist peer_discovery_duration_hist
      peer_response_duration_hist upstream_response_duration_hist bytes_eq
  new_prom_metrics-Records s l (proper1, (proper2, (proper3, (proper4, _))))
        (free1, (free2, (free3, (free4, _)))) readable =
      let apart : (a b : Bytes)
          → bytes_eq a b ≡ false
          → bytes_eq (prefix ++ a) (prefix ++ b) ≡ false =
        λ a b differ. bytes_eq-append prefix a b ∙ differ in
      let (s1, done1, taken1, rest1) = registers (request_duration_hist P prefix) s proper1 free1 in
      let (s2, done2, taken2, rest2) =
        registers (peer_discovery_duration_hist P prefix) s1 proper2
          (rest1 _ (apart _ _ refl) ∙ free2) in
      let (s3, done3, taken3, rest3) =
        registers (peer_response_duration_hist P prefix) s2 proper3
          (rest2 _ (apart _ _ refl) ∙ rest1 _ (apart _ _ refl) ∙ free3) in
      let (s4, done4, taken4, rest4) =
        registers (upstream_response_duration_hist P prefix) s3 proper4 (
          rest3 _ (apart _ _ refl) ∙ rest2 _ (apart _ _ refl) ∙ rest1 _ (apart _ _ refl) ∙ free4) in
      (
        s4,
        bind-ok (P.must_register (request_duration_hist P prefix)) _ s done1
            ∙ bind-ok (P.must_register (peer_discovery_duration_hist P prefix)) _ s1 done2
            ∙ bind-ok (P.must_register (peer_response_duration_hist P prefix)) _ s2 done3
            ∙ bind-ok (P.must_register (upstream_response_duration_hist P prefix)) _ s3 done4,
        metrics-Records l readable,
        λ other.
            ap (λ r. r.0)
              (bind-panic (new_prom_metrics P other prefix) _ s4 (
                new_prom_metrics-taken other s4 (
                  rest4 _ (apart _ _ refl)
                  ∙ rest3 _ (apart _ _ refl)
                  ∙ rest2 _ (apart _ _ refl)
                  ∙ taken1))),
      )
