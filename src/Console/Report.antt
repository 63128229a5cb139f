-- ===== src/Console/Report.antt =====
-- apps/sam/src/main.rs: what the console prints on the standard output.
use rust_state_machine_cowbo.Prelude.{◌/◌, String, List, [], ◌∷◌, ◌<>◌, string_eq, nat_eq, display}
use rust_state_machine_cowbo.Core.Registry.{Instant}
use rust_state_machine_cowbo.Service.State.{ServiceState, snapshot}
use rust_state_machine_cowbo.Service.Snapshot.{ApplicationSnapshot, applications}
use rust_state_machine_cowbo.AutoDemo.Waiting.{debug_mode, debug_health, debug_bool}

-- A time is in nanoseconds, and `as_millis` rounds it down.
unfoldable pub application_line : ApplicationSnapshot → String
application_line app =
    app.application
    <> ": mode="
    <> debug_mode app.current_mode
    <> ", reported_health="
    <> debug_health app.health
    <> ", effective_health="
    <> debug_health app.effective_health
    <> ", connected="
    <> debug_bool app.connected
    <> ", synchronized="
    <> debug_bool app.synchronized
    <> ", heartbeat_age="
    <> display (app.heartbeat_age / 1000000)
    <> "ms\n"

unfoldable pub application_lines : List ApplicationSnapshot → List String
application_lines [] = []
application_lines (app ∷ apps) = application_line app ∷ application_lines apps

module _ {Sender : Type 0} where
  unfoldable pub print_status : ServiceState Sender → List String
  print_status s =
      ("system: "
        <> debug_mode (snapshot s).mode
        <> " + "
        <> debug_health (snapshot s).health
        <> "\n")
      ∷ []

  unfoldable pub print_applications : ServiceState Sender → Instant → List String
  print_applications s now = elim (applications s now) [
    | [] ↦ "no applications registered\n" ∷ []
    | app ∷ apps ↦ application_lines (app ∷ apps)
  ]

abbrev pub print_help : List String
print_help =
    "commands: status | applications | startup | standby | working | help | quit\n" ∷ "sam> " ∷ []
