-- ===== src/Cmd/Tasks/Metrics.antt =====
-- The function of the error group that does not come to its end.
use peerd_oci.Prelude.{
  ◌≡◌, Option, none, Error, true, Option-cases, refl, inl, inr, false, Bool, if◌then◌else◌,
}
use peerd_oci.Cmd.Tasks.{
  Task, Group, MayReturn, leave, Reach, provide, listen, shutdown, prom, terminate, call_shutdown,
  return, begin, later, some, https, http, same_task,
}

-- No function calls `Shutdown` for the server of the metrics, and while the group has no error, that
-- server listens.
record Unshut (g : Group) : Type 0 where
  nobody_shuts : g.running (shutdown prom) ≡ false
  unshut : g.shut prom ≡ false
  listens : g.error ≡ none → g.running (listen prom) ≡ true

if_false : (b : Bool) {x : Bool} → x ≡ false → (if b then false else x) ≡ false
if_false true e = refl
if_false false e = e

leave-listens :
    (g : Group) (t : Task) (o : Option Error)
    → MayReturn g t o
    → Unshut g
    → (leave g t o).error ≡ none
    → (leave g t o).running (listen prom) ≡ true
leave-listens g provide none may u = u.listens
leave-listens g (listen https) none may u = u.listens
leave-listens g (listen http) none may u = u.listens
leave-listens g (listen prom) none may u = λ no_error. absurd (cc (may, u.unshut))
leave-listens g (shutdown a) none may u = u.listens
leave-listens g t (some e) may u =
    λ no_error. absurd (elim (Option-cases g.error) [ inl n ↦ cc | inr (first, n) ↦ cc ])

leave-Unshut :
    (g : Group) (t : Task) (o : Option Error) → MayReturn g t o → Unshut g → Unshut (leave g t o)
leave-Unshut g t none may u = record {
  nobody_shuts = if_false (same_task t (shutdown prom)) u.nobody_shuts;
  unshut = u.unshut;
  listens = leave-listens g t none may u;
}
leave-Unshut g t (some e) may u = record {
  nobody_shuts = if_false (same_task t (shutdown prom)) u.nobody_shuts;
  unshut = u.unshut;
  listens = leave-listens g t (some e) may u;
}

Reach-Unshut : (g : Group) → Reach g → Unshut g
Reach-Unshut g begin = record { nobody_shuts = refl; unshut = refl; listens = λ no_error. refl }
Reach-Unshut g (later r terminate) =
    let u = Reach-Unshut _ r in
    record { nobody_shuts = u.nobody_shuts; unshut = u.unshut; listens = u.listens }
Reach-Unshut g (later r (call_shutdown https run cancelled)) =
    let u = Reach-Unshut _ r in
    record { nobody_shuts = u.nobody_shuts; unshut = u.unshut; listens = u.listens }
Reach-Unshut g (later r (call_shutdown http run cancelled)) =
    let u = Reach-Unshut _ r in
    record { nobody_shuts = u.nobody_shuts; unshut = u.unshut; listens = u.listens }
Reach-Unshut g (later r (call_shutdown prom run cancelled)) =
    let u = Reach-Unshut _ r in absurd (cc (run, u.nobody_shuts))
Reach-Unshut g (later r (return t o run may)) = leave-Unshut _ t o may (Reach-Unshut _ r)

-- As long as no function of the group has returned an error, the server of the metrics runs, also after the
-- process was told to end: no function of the group calls `Shutdown` for it, so it goes on listening, and
-- the group's `Wait` returns only with an error.
pub Reach-listen_prom : (g : Group) → Reach g → g.error ≡ none → g.running (listen prom) ≡ true
Reach-listen_prom g r no_error = (Reach-Unshut g r).listens no_error
