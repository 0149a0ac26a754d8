-- ===== src/Tests/Metrics.antt =====
-- Metrics in a registry that is a list of names, and takes every text.
use peerd_oci.Metrics.Names.{Documented, metrics, Records, Labels, new_prom_metrics-Records}
use peerd_oci.Metrics.{Prometheus, new_prom_metrics, with_context}
use peerd_oci.Prelude.{
  ◌≡◌, codes, Bytes, List, Bool, if◌then◌else◌, ◌∷◌, false, panic, ==_refl, [], bytes_eq, ok, ◌||◌,
  length, ◌==◌, refl, true,
}

is_taken : List Bytes → Bytes → Bool
is_taken [] n = false
is_taken (m ∷ ms) n = bytes_eq m n || is_taken ms n

-- The list, with the numbers left as texts.
abbrev registry : Prometheus
registry = record {
  State = List Bytes;
  Float = Bytes;
  literal = λ text. text;
  float64 = λ n. codes "n";
  quotient = λ x y. x;
  must_register = λ v s. if is_taken s v.name then (panic, s) else (ok tt, v.name ∷ s);
  observe = λ v values x s. (if length values == length v.labels then ok tt else panic, s);
}

registry-Documented : Documented registry
unfolding is_taken
registry-Documented = record {
  taken = is_taken;
  valid = λ v. true;
  utf8 = λ text. true;
  registers = λ v s proper free. (v.name ∷ s, rw free refl, λ n. refl);
  refuses = λ v s again. rw again refl;
  observes = λ v values x s same readable. rw same (rw ==_refl refl);
}

abbrev labels : Labels
labels = record {
  ip = codes "10.0.0.1";
  op = codes "pread";
  hostname = codes "origin";
  method = codes "GET";
  handler = codes "files";
}

new_prom_metrics-Records_example :
    (t : List Bytes) × (new_prom_metrics registry (codes "node") (codes "peerd") []
      ≡ (ok (metrics registry registry-Documented (codes "node") (codes "peerd")), t))
    × Records registry (metrics registry registry-Documented (codes "node") (codes "peerd")) labels
    × ((other : Bytes) → (with_context registry other (codes "peerd") t).0 ≡ panic)
unfolding is_taken registry-Documented
new_prom_metrics-Records_example =
    new_prom_metrics-Records registry registry-Documented (codes "node") (codes "peerd") [] labels
      (refl, (refl, (refl, (refl, tt)))) (refl, (refl, (refl, (refl, tt))))
      (refl, (refl, (refl, (refl, (refl, (refl, tt))))))
