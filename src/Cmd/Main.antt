-- ===== src/Cmd/Main.antt =====
-- cmd/proxy/main.go: `main`, and how the process ends.
use peerd_oci.Prelude.{◌>>=◌, Outcome, Option, ℕ, ok, some, err, none, panic, blocked}

-- With which status a process ends; none if it does not.
unfoldable pub exit_status : {A : Type 0} → Outcome A → Option ℕ
exit_status (ok a) = some 0
exit_status (err e) = some 1
exit_status panic = some 2
exit_status blocked = none

-- `main`, with the results for the level of the log, for the metrics and of `run`.
unfoldable pub main : Outcome (Unit {0}) → Outcome (Unit {0}) → Outcome (Unit {0}) → Option ℕ
main level metrics ran = exit_status (level >>= λ _. metrics >>= λ _. ran)
