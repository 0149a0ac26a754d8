-- ===== src/Cmd/Reports.antt =====
-- Which events a node reports while its server starts and ends.
use peerd_oci.Action.Steps.{bind-ok}
use peerd_oci.Action.{continue, ◌>>=◌, lift}
use peerd_oci.Prelude.{
  Outcome, Bytes, List, ◌∷◌, [], ◌≡◌, ◌++◌, refl, ap, ◌∙◌, panic, append_assoc, blocked, sym,
  append-nil,
}
use peerd_oci.Cmd.{
  last_events, ok, ClientLibrary, Libraries, NewRouter, Workers, ServerCmd, Action, Environment,
  on_libs, start_server, server_command, Process, find_recorder, lift, report, reporting_failure,
  err, new_router, new_files_store,
}
use peerd_oci.K8s.Events.{Event, EventRecorder, initializing, failed}

-- What is reported, by the search for the recorder and the result of the server.
abbrev pub reported : {A : Type 0} → Outcome (Bytes × EventRecorder) → Outcome A → List Event
reported (ok (port, er)) (err e) = initializing er ∷ failed er ∷ []
reported (ok (port, er)) (ok a) = initializing er ∷ []
reported (ok (port, er)) panic = initializing er ∷ []
reported (ok (port, er)) blocked = initializing er ∷ []
reported found o = []

reported-last_events :
    {A : Type 0} (port : Bytes) (er : EventRecorder) (o : Outcome A)
    → initializing er ∷ last_events er o ≡ reported (ok (port, er)) o
reported-last_events port er (ok a) = refl
reported-last_events port er (err e) = refl
reported-last_events port er panic = refl
reported-last_events port er blocked = refl

-- An action that reports nothing itself.
abbrev Quiet : {S A : Type 0} → Action (Process S) A → Type 0
Quiet m = (p : _) → (m p).1.events ≡ p.events

module _ {S A B : Type 0} where
  continue-Quiet :
      (r : Outcome A) (f : A → Action (Process S) B) (p : Process S)
      → ((a : A) → Quiet (f a))
      → (continue r f p).1.events ≡ p.events
  unfolding continue
  continue-Quiet (ok a) f p quiet = quiet a p
  continue-Quiet (err e) f p quiet = refl
  continue-Quiet panic f p quiet = refl
  continue-Quiet blocked f p quiet = refl

  Quiet-bind :
      (m : Action (Process S) A) (f : A → Action (Process S) B)
      → Quiet m
      → ((a : A) → Quiet (f a))
      → Quiet (m >>= f)
  unfolding ◌>>=◌
  Quiet-bind m f first rest p = continue-Quiet (m p).0 f (m p).1 rest ∙ first p

module _ {S A : Type 0} where
  on_libs-Quiet : (m : Action S A) → Quiet (on_libs m)
  unfolding on_libs
  on_libs-Quiet m p = refl

  lift-Quiet : (o : Outcome A) → Quiet (lift {S = Process S} o)
  unfolding lift
  lift-Quiet o p = refl

module _ (K : ClientLibrary) (L : Libraries)
    (serve : NewRouter L.Host → Workers → ServerCmd → Action L.State (Unit {0}))
    (env : Environment) where
  start_server-events :
      (args : ServerCmd) (port : Bytes) (er : EventRecorder) (p : Process L.State)
      → (start_server K L serve env args port er p).1.events ≡ p.events ++ initializing er ∷ []
  unfolding start_server report
  start_server-events args port er p =
      ap (λ r. r.1.events) (bind-ok (report (initializing er)) _ p refl)
      ∙ Quiet-bind (on_libs (new_router L args.router_addr port)) _ (on_libs-Quiet _)
          (λ r.
            Quiet-bind (lift (new_files_store args.prefetch_workers)) _ (lift-Quiet _)
              (λ workers. on_libs-Quiet (serve r workers args)))
          (record p { events = p.events ++ initializing er ∷ [] })

  reporting-events :
      (args : ServerCmd) (found : Outcome (Bytes × EventRecorder)) (p : Process L.State)
      → (let run =
            (lift found >>= λ (port, er).
            reporting_failure er (start_server K L serve env args port er))
              p in
          run.1.events ≡ p.events ++ reported found run.0)
  unfolding lift reporting_failure ◌>>=◌ continue
  reporting-events args (ok (port, er)) p =
      let (o, q) = start_server K L serve env args port er p in
      ap (λ events. events ++ last_events er o) (start_server-events args port er p)
      ∙ append_assoc p.events (initializing er ∷ []) (last_events er o)
      ∙ ap (λ events. p.events ++ events) (reported-last_events port er o)
  reporting-events args (err e) p = sym (append-nil p.events)
  reporting-events args panic p = sym (append-nil p.events)
  reporting-events args blocked p = sym (append-nil p.events)

  -- What `serverCommand` itself reports: nothing, if it returns before it has the recorder; else that it
  -- starts, and at the end that it failed just if it returns an error, whatever call has failed.
  pub server_command-reported :
      (args : ServerCmd) (p : Process L.State)
      → (server_command K L serve env args p).1.events
        ≡ p.events
          ++ reported
              (find_recorder K L.split_host_port env args.https_addr)
              (server_command K L serve env args p).0
  unfolding server_command
  server_command-reported args p =
      reporting-events args (find_recorder K L.split_host_port env args.https_addr) p
