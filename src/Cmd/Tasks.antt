-- ===== src/Cmd/Tasks.antt =====
-- cmd/proxy/main.go: the six functions that `serverCommand` gives its error group, from the call of `Wait`
-- on. The group keeps the first error, cancels its context with it, and `Wait` returns once all of its
-- functions have returned. A server of net/http returns from its listening with `ErrServerClosed` only
-- after `Shutdown`, and else with another error.
pub mod Metrics
pub mod Stopping
use peerd_oci.Prelude.{Bool, Option, true, false, Error, ◌≡◌, none, if◌then◌else◌, some}

-- The servers: `httpsSrv`, `httpSrv`, and that of the metrics.
pub data Server : Type 0 where
  https http prom : Server

pub data Task : Type 0 where
  provide : Task
  listen : Server → Task
  shutdown : Server → Task

-- The context, the group, whether `Shutdown` was called for a server, and which functions still run.
pub record Group : Type 0 where
  pub cancelled : Bool
  pub error : Option Error
  pub shut : Server → Bool
  pub running : Task → Bool

abbrev pub same_server : Server → Server → Bool
same_server https https = true
same_server http http = true
same_server prom prom = true
same_server a b = false

abbrev pub same_task : Task → Task → Bool
same_task provide provide = true
same_task (listen a) (listen b) = same_server a b
same_task (shutdown a) (shutdown b) = same_server a b
same_task a b = false

-- With what a function may return: no error, or this one.
abbrev pub MayReturn : Group → Task → Option Error → Type 0
MayReturn g provide none = g.cancelled ≡ true
MayReturn g provide (some e) = ⊥
MayReturn g (listen a) none = g.shut a ≡ true
MayReturn g (listen a) (some e) = Unit
MayReturn g (shutdown a) o = g.shut a ≡ true

-- The group when a function returns.
abbrev pub leave : Group → Task → Option Error → Group
leave g t none = record g { running = λ u. if same_task t u then false else g.running u }
leave g t (some e) = record g {
  cancelled = true;
  error = elim g.error [ none ↦ some e | some first ↦ some first ];
  running = λ u. if same_task t u then false else g.running u;
}

pub data Step (g : Group) : Group → Type 0 where
  terminate : Step g (record g { cancelled = true })
  call_shutdown :
      (a : Server)
      → g.running (shutdown a) ≡ true
      → g.cancelled ≡ true
      → Step g (record g { shut = λ b. if same_server a b then true else g.shut b })
  return :
      (t : Task) (o : Option Error) → g.running t ≡ true → MayReturn g t o → Step g (leave g t o)

-- Whether the group has a function that waits for the context and calls `Shutdown` for the server.
abbrev pub has_shutdown : Server → Bool
has_shutdown https = true
has_shutdown http = true
has_shutdown prom = false

-- The six functions.
abbrev pub starts : Task → Bool
starts provide = true
starts (listen a) = true
starts (shutdown a) = has_shutdown a

abbrev pub started : Group
started = record { cancelled = false; error = none; shut = λ a. false; running = starts }

pub data Reach : Group → Type 0 where
  begin : Reach started
  later : {g h : Group} → Reach g → Step g h → Reach h
