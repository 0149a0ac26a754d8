-- ===== src/Cmd.antt =====
-- cmd/proxy: the command line (cmd.go) and the start of the server (main.go), with the events that it
-- reports to the cluster.
pub mod Recorder
pub mod Main
pub mod Reports
pub mod Tasks
use peerd_oci.Cmd.Recorder.{Environment, find_recorder}
use peerd_oci.Prelude.{
  Bytes, Option, List, Outcome, ok, ◌++◌, if◌then◌else◌, Bool, [], ◌∷◌, some, unknown_subcommand,
  err, none, panic, blocked,
}
use peerd_oci.Int64.{ℤ}
use peerd_oci.K8s.{ClientLibrary, new_kubernetes_interface}
use peerd_oci.K8s.Events.{Event, EventRecorder, new_recorder, initializing, failed}
use peerd_oci.Router.Start.{Libraries, NewRouter, new_router}
use peerd_oci.Store.Start.{Workers, new_files_store}
use peerd_oci.Action.{Action, pure, raise, lift, modify, ◌>>=◌, ◌>>◌}

-- `ServerCmd`, without the mirror configuration, which nothing reads.
pub record ServerCmd : Type 0 where
  pub http_addr : Bytes
  pub https_addr : Bytes
  pub router_addr : Bytes
  pub prom_addr : Bytes
  pub prefetch_workers : ℤ

pub record Arguments : Type 0 where
  pub server : Option ServerCmd
  pub version : Bool

-- The state of the libraries, and the events that `serverCommand` itself has reported.
pub record Process (S : Type 0) : Type 0 where
  pub libs : S
  pub events : List Event

-- The event of the deferred function for the result of the function.
abbrev pub last_events : {A : Type 0} → EventRecorder → Outcome A → List Event
last_events er (ok a) = []
last_events er (err e) = failed er ∷ []
last_events er panic = []
last_events er blocked = []

module _ {S : Type 0} where
  unfoldable pub report : Event → Action (Process S) (Unit {0})
  report event p = (ok tt, record p { events = p.events ++ event ∷ [] })

  unfoldable pub on_libs : {A : Type 0} → Action S A → Action (Process S) A
  on_libs m p = let (o, s) = m p.libs in (o, record p { libs = s })

  -- The deferred function reports a failure if the function returns an error.
  unfoldable pub reporting_failure :
      EventRecorder → Action (Process S) (Unit {0}) → Action (Process S) (Unit {0})
  reporting_failure er m p =
      let (o, q) = m p in (o, record q { events = q.events ++ last_events er o })

-- `serve` runs the servers until the error group ends.
module _ (K : ClientLibrary) (L : Libraries)
    (serve : NewRouter L.Host → Workers → ServerCmd → Action L.State (Unit {0}))
    (env : Environment) where
  -- The part of `serverCommand` from there on.
  unfoldable pub start_server :
      ServerCmd → Bytes → EventRecorder → Action (Process L.State) (Unit {0})
  start_server args https_port er = do
    report (initializing er)
    r ← on_libs (new_router L args.router_addr https_port)
    workers ← lift (new_files_store args.prefetch_workers)
    on_libs (serve r workers args)

  -- `serverCommand`.
  unfoldable pub server_command : ServerCmd → Action (Process L.State) (Unit {0})
  server_command args = do
    (https_port, er) ← lift (find_recorder K L.split_host_port env args.https_addr)
    reporting_failure er (start_server args https_port er)

  -- `run`.
  unfoldable pub run : Arguments → Action (Process L.State) (Unit {0})
  run args = if args.version then pure tt else elim args.server [
    | some server ↦ server_command server
    | none ↦ raise unknown_subcommand
  ]
