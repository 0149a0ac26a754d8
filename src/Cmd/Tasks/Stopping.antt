-- ===== src/Cmd/Tasks/Stopping.antt =====
-- How the other functions of the error group come to their end.
use peerd_oci.Prelude.{
  Bool, ◌≡◌, Option, ◌∙◌, false, true, Error, if◌then◌else◌, none, Bool-cases, ◌⊎◌, refl, inr, inl,
  subst, sym, ap,
}
use peerd_oci.Cmd.Tasks.{
  Server, Task, Group, same_server, same_task, MayReturn, leave, Step, Reach, provide, listen,
  shutdown, prom, has_shutdown, https, http, terminate, call_shutdown, return, begin, later, some,
}

if_false : (b : Bool) {x : Bool} → x ≡ false → (if b then false else x) ≡ false
if_false true e = refl
if_false false e = e

if_true : (b : Bool) {x : Bool} → x ≡ true → (if b then true else x) ≡ true
if_true true e = refl
if_true false e = e

same_server_refl : (a : Server) → same_server a a ≡ true
same_server_refl https = refl
same_server_refl http = refl
same_server_refl prom = refl

same_task_refl : (t : Task) → same_task t t ≡ true
same_task_refl provide = refl
same_task_refl (listen a) = same_server_refl a
same_task_refl (shutdown a) = same_server_refl a

-- A function that shuts a server down ends only after it has called `Shutdown`, and the group has
-- none that it did not start.
record Calls (g : Group) : Type 0 where
  called : (a : Server) → has_shutdown a ≡ true → g.running (shutdown a) ≡ false → g.shut a ≡ true
  no_other : g.running (shutdown prom) ≡ false

same_server_sound : (b a : Server) → same_server b a ≡ true → b ≡ a
same_server_sound https https e = refl
same_server_sound http http e = refl
same_server_sound prom prom e = refl
same_server_sound b a e = absurd (cc)

shut_after :
    (g : Group) (b a : Server)
    → g.shut b ≡ true
    → (g.running (shutdown a) ≡ false → g.shut a ≡ true)
    → (if same_server b a then false else g.running (shutdown a)) ≡ false
    → g.shut a ≡ true
shut_after g b a closed calls e = elim (Bool-cases (same_server b a)) [
  | inl same ↦ subst (λ s. g.shut s ≡ true) (same_server_sound b a same) closed
  | inr other ↦ calls (sym (ap (λ s. if s then false else g.running (shutdown a)) other) ∙ e)
]

leave-called :
    (g : Group) (t : Task) (o : Option Error)
    → MayReturn g t o
    → Calls g
    → (a : Server) → has_shutdown a ≡ true
    → (leave g t o).running (shutdown a) ≡ false
    → g.shut a ≡ true
leave-called g provide none may calls a has e = calls.called a has e
leave-called g provide (some x) may calls a has e = absurd may
leave-called g (listen b) none may calls a has e = calls.called a has e
leave-called g (listen b) (some x) may calls a has e = calls.called a has e
leave-called g (shutdown b) none may calls a has e = shut_after g b a may (calls.called a has) e
leave-called g (shutdown b) (some x) may calls a has e = shut_after g b a may (calls.called a has) e

leave-Calls :
    (g : Group) (t : Task) (o : Option Error) → MayReturn g t o → Calls g → Calls (leave g t o)
leave-Calls g t none may calls = record {
  called = leave-called g t none may calls;
  no_other = if_false (same_task t (shutdown prom)) calls.no_other;
}
leave-Calls g t (some x) may calls = record {
  called = leave-called g t (some x) may calls;
  no_other = if_false (same_task t (shutdown prom)) calls.no_other;
}

Reach-Calls : (g : Group) → Reach g → Calls g
Reach-Calls g begin = record { called = λ a has e. absurd (cc (has, e)); no_other = refl }
Reach-Calls g (later r terminate) =
    let c = Reach-Calls _ r in record { called = c.called; no_other = c.no_other }
Reach-Calls g (later r (call_shutdown b run cancelled)) =
    let c = Reach-Calls _ r in
    record {
      called = λ a has e. if_true (same_server b a) (c.called a has e);
      no_other = c.no_other;
    }
Reach-Calls g (later r (return t o run may)) = leave-Calls _ t o may (Reach-Calls _ r)

-- The states that a group may come to.
pub data Steps (g : Group) : Group → Type 0 where
  stay : Steps g g
  go_on : {h k : Group} → Steps g h → Step h k → Steps g k

-- A later state of a cancelled group, in which what has ended or was shut stays so.
record After (g h : Group) : Type 0 where
  steps : Steps g h
  cancelled : h.cancelled ≡ true
  same_error : h.error ≡ g.error
  shut : (a : Server) → g.shut a ≡ true → h.shut a ≡ true
  ended : (t : Task) → g.running t ≡ false → h.running t ≡ false

Steps-trans : {g h k : Group} → Steps g h → Steps h k → Steps g k
Steps-trans s stay = s
Steps-trans s (go_on t step) = go_on (Steps-trans s t) step

After-trans : {g h k : Group} → After g h → After h k → After g k
After-trans a b = record {
  steps = Steps-trans a.steps b.steps;
  cancelled = b.cancelled;
  same_error = b.same_error ∙ a.same_error;
  shut = λ s e. b.shut s (a.shut s e);
  ended = λ t e. b.ended t (a.ended t e);
}

After-refl : (g : Group) → g.cancelled ≡ true → After g g
After-refl g cancelled = record {
  steps = stay;
  cancelled = cancelled;
  same_error = refl;
  shut = λ s e. e;
  ended = λ t e. e;
}

-- A function that may return without an error comes to its end.
end_task :
    (g : Group) (t : Task)
    → g.cancelled ≡ true
    → MayReturn g t none
    → (h : Group) × After g h × (h.running t ≡ false)
end_task g t cancelled may = elim (Bool-cases (g.running t)) [
  | inr ended ↦ (g, After-refl g cancelled, ended)
  | inl runs ↦ (
    leave g t none,
    record {
      steps = go_on stay (return t none runs may);
      cancelled = cancelled;
      same_error = refl;
      shut = λ a e. e;
      ended = λ u e. if_false (same_task t u) e;
    },
    rw same_task_refl,
  )
]

-- The servers are shut down.
shut_server :
    (g : Group) (a : Server)
    → g.cancelled ≡ true
    → g.running (shutdown a) ≡ true
    → (h : Group) × After g h × (h.shut a ≡ true)
shut_server g a cancelled runs = (
  record g { shut = λ b. if same_server a b then true else g.shut b },
  record {
    steps = go_on stay (call_shutdown a runs cancelled);
    cancelled = cancelled;
    same_error = refl;
    shut = λ b e. if_true (same_server a b) e;
    ended = λ u e. e;
  },
  rw same_server_refl,
)

Reach-Steps : {g h : Group} → Reach g → Steps g h → Reach h
Reach-Steps r stay = r
Reach-Steps r (go_on s step) = later (Reach-Steps r s) step

-- A server is shut down, by the function for it or before.
shut_in_time :
    (g : Group) (a : Server)
    → has_shutdown a ≡ true
    → Reach g
    → g.cancelled ≡ true
    → (h : Group) × After g h × (h.shut a ≡ true)
shut_in_time g a has r cancelled = elim (Bool-cases (g.running (shutdown a))) [
  | inl runs ↦ shut_server g a cancelled runs
  | inr over ↦ (g, After-refl g cancelled, (Reach-Calls g r).called a has over)
]

-- Both functions for a server come to their end.
stop_server :
    (g : Group) (a : Server)
    → has_shutdown a ≡ true
    → Reach g
    → g.cancelled ≡ true
    → (h : Group) × After g h × (h.running (listen a) ≡ false) × (h.running (shutdown a) ≡ false)
stop_server g a has r cancelled =
    let (h, to_h, closed) = shut_in_time g a has r cancelled in
    let (i, to_i, no_listen) = end_task h (listen a) to_h.cancelled closed in
    let (j, to_j, no_shutdown) = end_task i (shutdown a) to_i.cancelled (to_i.shut a closed) in
    (j, After-trans to_h (After-trans to_i to_j), to_j.ended (listen a) no_listen, no_shutdown)

all_but_prom :
    (h : Group)
    → h.running provide ≡ false
    → (h.running (listen https) ≡ false) × (h.running (listen http) ≡ false)
    → (h.running (shutdown https) ≡ false)
      × (h.running (shutdown http) ≡ false)
      × (h.running (shutdown prom) ≡ false)
    → (t : Task) → (t ≡ listen prom) ⊎ (h.running t ≡ false)
all_but_prom h no_provide (l, m) (s, u, v) provide = inr no_provide
all_but_prom h no_provide (l, m) (s, u, v) (listen https) = inr l
all_but_prom h no_provide (l, m) (s, u, v) (listen http) = inr m
all_but_prom h no_provide (l, m) (s, u, v) (listen prom) = inl refl
all_but_prom h no_provide (l, m) (s, u, v) (shutdown https) = inr s
all_but_prom h no_provide (l, m) (s, u, v) (shutdown http) = inr u
all_but_prom h no_provide (l, m) (s, u, v) (shutdown prom) = inr v

-- From every state in which the context is cancelled, by the signal or by an error, the group can come to
-- one in which all of its functions have returned but the one that serves the metrics, with no other error.
pub all_but_prom_end :
    (g : Group)
    → Reach g
    → g.cancelled ≡ true
    → (h : Group) × Steps g h
      × (h.error ≡ g.error)
      × ((t : Task) → (t ≡ listen prom) ⊎ (h.running t ≡ false))
all_but_prom_end g r cancelled =
    let (h, to_h, no_https, no_https_shutdown) = stop_server g https refl r cancelled in
    let (i, to_i, no_http, no_http_shutdown) =
      stop_server h http refl (Reach-Steps r to_h.steps) to_h.cancelled in
    let (j, to_j, no_provide) = end_task i provide to_i.cancelled to_i.cancelled in
    let to_end = After-trans to_i to_j in
    let all = After-trans to_h to_end in
    (
      j,
      all.steps,
      all.same_error,
      all_but_prom j no_provide
          (to_end.ended (listen https) no_https, to_j.ended (listen http) no_http)
          (
            to_end.ended (shutdown https) no_https_shutdown,
            to_j.ended (shutdown http) no_http_shutdown,
            all.ended (shutdown prom) (Reach-Calls g r).no_other,
          ),
    )
