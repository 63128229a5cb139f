-- ===== src/Console/Tests.antt =====
-- The console on a service with one application.
use rust_state_machine_cowbo.Prelude.{
  true, List, [], ◌∷◌, ◌++◌, Option, some, ok, All, ◌≡◌, refl, ◌⊎◌, display,
}
use rust_state_machine_cowbo.Protocol.{startup, healthy, SamToApplication}
use rust_state_machine_cowbo.Core.Mode.{stable}
use rust_state_machine_cowbo.Service.State.{ServiceState}
use rust_state_machine_cowbo.Service.Snapshot.{applications}
use rust_state_machine_cowbo.Service.Calls.{Call, refreshes, run}
use rust_state_machine_cowbo.Console.Report.{
  print_status, print_applications, application_lines, application_line,
}
use rust_state_machine_cowbo.Core.Health.{calculate_application}
use rust_state_machine_cowbo.Console.Loop.{ConsoleEvent, next_line, meanwhile, console_loop}
use rust_state_machine_cowbo.Console.Commands.{IsRequest, console_loop-run}

abbrev Queued : Type 0
Queued = List SamToApplication

abbrev try_send : Queued → SamToApplication → Option Queued
try_send queued message = some (queued ++ message ∷ [])

abbrev one_application : ServiceState Queued
one_application = record {
  system = record { mode = startup; health = healthy };
  applications =
      (
        "telemetry",
        record {
          health = healthy;
          current_mode = startup;
          last_heartbeat = 1000000;
          connected = true;
        },
      )
      ∷ [];
  health = record { heartbeat_timeout = 2000000000 };
  modes = record { state = stable startup; next_transition_id = 1 };
  clients = ("telemetry", record { id = 1; outbound = [] }) ∷ [];
  next_connection_id = 2;
}

-- The applications 41 milliseconds after the heartbeat.
applications_printed :
    print_applications one_application 42500000
    ≡ "telemetry: mode=Startup, reported_health=Healthy, effective_health=Healthy, connected=true, synchronized=true, heartbeat_age=41ms\n"
      ∷ []
unfolding print_applications applications application_lines application_line calculate_application
    display
applications_printed = refl

status_printed : print_status one_application ≡ "system: Startup + Healthy\n" ∷ []
unfolding print_status
status_printed = refl

-- A status, a request in capitals, a health check by another task, and the end.
abbrev typed : List (ConsoleEvent (Unit {0}) (Unit {0}) Queued)
typed =
    next_line (ok (some "status")) 1 (ok tt)
    ∷ next_line (ok (some " STANDBY")) 2 (ok tt)
    ∷ meanwhile (refreshes 3)
    ∷ next_line (ok (some "quit")) 4 (ok tt)
    ∷ []

abbrev OfOthers : Call Queued → Type 0
OfOthers (refreshes now) = Unit
OfOthers _ = ⊥

console_loop-run_example :
    (cs : List (Call Queued)) × ((console_loop try_send one_application [] typed).0.0
      ≡ run try_send one_application cs)
    × All (λ c. IsRequest c ⊎ OfOthers c) cs
console_loop-run_example = console_loop-run try_send OfOthers one_application [] typed (tt, tt)
