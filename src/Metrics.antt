-- ===== src/Metrics.antt =====
-- pkg/metrics: the metrics of a node. The library that keeps them (Prometheus) and its floating point
-- numbers are an interface.
pub mod Names
use peerd_oci.Int64.{ℤ, pos}
use peerd_oci.Prelude.{
  ◌∷◌, ◌++◌, codes, Bytes, ℕ, [], Option, List, some, Outcome, ◌*◌, panic, ok, none,
}
use peerd_oci.Action.{Action, pure, ◌>>=◌, ◌>>◌}

-- What a histogram vector is made from; the buckets by the arguments of `LinearBuckets`.
pub record HistogramVec (F : Type 0) : Type 0 where
  pub name : Bytes
  pub help : Bytes
  pub start : F
  pub width : F
  pub buckets : ℕ
  pub labels : List Bytes

-- `float64`, with its literals, the conversion of an integer and the quotient; `MustRegister`, and
-- `Observe` on what `WithLabelValues` returns.
pub record Prometheus : Type 1 where
  pub State : Type 0
  pub Float : Type 0
  pub literal : Bytes → Float
  pub float64 : ℤ → Float
  pub quotient : Float → Float → Float
  pub must_register : HistogramVec Float → Action State (Unit {0})
  pub observe : HistogramVec Float → List Bytes → Float → Action State (Unit {0})

-- `promMetrics`.
pub record PromMetrics (F : Type 0) : Type 0 where
  pub name : Bytes
  pub request_duration : HistogramVec F
  pub peer_discovery_duration : HistogramVec F
  pub peer_response_speed : HistogramVec F
  pub upstream_response_speed : HistogramVec F

module _ (P : Prometheus) where
  open P use {State, Float, literal, float64, quotient, must_register, observe}

  -- `RecordPeerDiscovery`.
  unfoldable pub record_peer_discovery : PromMetrics Float → Bytes → Float → Action State (Unit {0})
  record_peer_discovery m ip duration =
      observe m.peer_discovery_duration (m.name ∷ ip ∷ []) duration

  -- MiB per second: `count / duration / (1024 * 1024)`.
  unfoldable pub speed : ℤ → Float → Float
  speed count duration = quotient (quotient (float64 count) duration) (float64 (pos (1024 * 1024)))

  -- `RecordPeerResponse`; the key is not used.
  unfoldable pub record_peer_response :
      PromMetrics Float → Bytes → Bytes → Bytes → Float → ℤ → Action State (Unit {0})
  record_peer_response m ip key op duration count =
      observe m.peer_response_speed (m.name ∷ ip ∷ op ∷ []) (speed count duration)

  -- `RecordRequest`.
  unfoldable pub record_request :
      PromMetrics Float → Bytes → Bytes → Float → Action State (Unit {0})
  record_request m method handler duration =
      observe m.request_duration (m.name ∷ method ∷ handler ∷ []) duration

  -- `RecordUpstreamResponse`.
  unfoldable pub record_upstream_response :
      PromMetrics Float → Bytes → Bytes → Bytes → Float → ℤ → Action State (Unit {0})
  record_upstream_response m hostname key op duration count =
      observe m.upstream_response_speed (m.name ∷ hostname ∷ op ∷ []) (speed count duration)

  unfoldable pub request_duration_hist : Bytes → HistogramVec Float
  request_duration_hist prefix = record {
    name = prefix ++ codes "_request_duration_seconds";
    help = codes "Duration of requests in seconds.";
    start = literal (codes "0.005");
    width = literal (codes "0.025");
    buckets = 200;
    labels = codes "self" ∷ codes "method" ∷ codes "handler" ∷ [];
  }

  unfoldable pub peer_discovery_duration_hist : Bytes → HistogramVec Float
  peer_discovery_duration_hist prefix = record {
    name = prefix ++ codes "_peer_discovery_duration_seconds";
    help = codes "Duration of peer discovery in seconds.";
    start = literal (codes "0.001");
    width = literal (codes "0.002");
    buckets = 200;
    labels = codes "self" ∷ codes "ip" ∷ [];
  }

  unfoldable pub peer_response_duration_hist : Bytes → HistogramVec Float
  peer_response_duration_hist prefix = record {
    name = prefix ++ codes "_peer_response_speed_mib_per_second";
    help = codes "Speed of peer response in Mib per second.";
    start = literal (codes "1");
    width = literal (codes "15");
    buckets = 200;
    labels = codes "self" ∷ codes "ip" ∷ codes "op" ∷ [];
  }

  unfoldable pub upstream_response_duration_hist : Bytes → HistogramVec Float
  upstream_response_duration_hist prefix = record {
    name = prefix ++ codes "_upstream_response_speed_mib_per_second";
    help = codes "Speed of upstream response in Mib per second.";
    start = literal (codes "1");
    width = literal (codes "15");
    buckets = 200;
    labels = codes "self" ∷ codes "hostname" ∷ codes "op" ∷ [];
  }

  -- `NewPromMetrics`.
  unfoldable pub new_prom_metrics : Bytes → Bytes → Action State (PromMetrics Float)
  new_prom_metrics name prefix = do
    must_register (request_duration_hist prefix)
    must_register (peer_discovery_duration_hist prefix)
    must_register (peer_response_duration_hist prefix)
    must_register (upstream_response_duration_hist prefix)
    pure (record {
      name = name;
      request_duration = request_duration_hist prefix;
      peer_discovery_duration = peer_discovery_duration_hist prefix;
      peer_response_speed = peer_response_duration_hist prefix;
      upstream_response_speed = upstream_response_duration_hist prefix;
    })

  -- `WithContext`: the value of the context under the key of the package. The pointer that
  -- `NewPromMetrics` returns is never nil.
  unfoldable pub with_context : Bytes → Bytes → Action State (Option (PromMetrics Float))
  with_context name prefix = do m ← new_prom_metrics name prefix; pure (some m)

-- `FromContext`, which panics where the context has no value under the key.
unfoldable pub from_context : {F : Type 0} → Option (PromMetrics F) → Outcome (PromMetrics F)
from_context none = panic
from_context (some m) = ok m
