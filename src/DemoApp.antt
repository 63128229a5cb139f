-- ===== src/DemoApp.antt =====
-- crates/sam-demo-app/src/lib.rs: the mode handler and the flags of the demo applications. What
-- reads the process's arguments and installs the logger is left out.
use rust_state_machine_cowbo.Prelude.{
  ℕ, Bool, true, false, String, List, [], ◌∷◌, Option, none, some, Result, ok, err, ◌==◌, ◌&&◌,
  ◌||◌, ◌<>◌, if◌then◌else◌, string_eq, parse_u64,
}
use rust_state_machine_cowbo.Protocol.{
  SystemMode, startup, working, HealthState, healthy, degraded, failed, TransitionId, mode_eq,
}
use rust_state_machine_cowbo.Core.Health.{Duration}
use rust_state_machine_cowbo.Client.Handler.{ModeHandler, default_synchronize_mode}
pub mod Policy
pub mod Flags
pub mod Executables
mod Tests

pub record DemoHandler : Type 0 where
  pub name : String
  pub current_mode : SystemMode
  pub health : HealthState
  pub reject_working : Bool
  pub reject_working_once : Bool

unfoldable pub new : String → Bool → HealthState → DemoHandler
new name reject_working reported = record {
  name = name;
  current_mode = startup;
  health = reported;
  reject_working = reject_working;
  reject_working_once = false;
}

unfoldable pub with_reject_working_once : DemoHandler → Bool → DemoHandler
with_reject_working_once handler enabled = record handler { reject_working_once = enabled }

unfoldable pub prepare_mode : DemoHandler → SystemMode → DemoHandler × Result (Unit {0}) String
prepare_mode handler requested =
    if requested == working && (handler.reject_working || handler.reject_working_once)
    then (
      record handler { reject_working_once = false },
      err (handler.name <> " configured to reject Working"),
    )
    else (handler, ok tt)

unfoldable pub commit_mode : DemoHandler → SystemMode → DemoHandler × Result (Unit {0}) String
commit_mode handler mode = (record handler { current_mode = mode }, ok tt)

-- The two callbacks that only log change nothing.
abbrev pub demo_handler : ModeHandler DemoHandler
demo_handler = record {
  health = λ handler. handler.health;
  current_mode = λ handler. handler.current_mode;
  prepare_mode = prepare_mode;
  commit_mode = commit_mode;
  synchronize_mode =
      default_synchronize_mode (λ handler. handler.current_mode) prepare_mode commit_mode;
  abort_mode = λ handler transition_id. handler;
  system_state_changed = λ handler mode reported. handler;
}

-- The loop of `health_from`, with the health found so far.
unfoldable pub health_from_loop : HealthState → List String → HealthState
health_from_loop found [] = found
health_from_loop found (argument ∷ args) =
    let rest_degraded = health_from_loop degraded args in
    let rest = health_from_loop found args in
    if argument == "--failed"
    then failed
    else if argument == "--degraded"
    then rest_degraded
    else rest

unfoldable pub health_from : List String → HealthState
health_from args = health_from_loop healthy args

unfoldable pub has_flag : List String → String → Bool
has_flag [] flag = false
has_flag (argument ∷ args) flag = argument == flag || has_flag args flag

unfoldable pub reject_working_from : List String → Bool
reject_working_from args = has_flag args "--reject-working"

-- The value behind the flag, in milliseconds.
unfoldable pub exit_after_value : List String → Result (Option Duration) String
exit_after_value [] = err "--exit-after-ms requires a millisecond value"
exit_after_value (value ∷ args) = elim (parse_u64 value) [
  | none ↦ err ("invalid --exit-after-ms value: " <> value)
  | some milliseconds ↦ ok (some milliseconds)
]

unfoldable pub exit_after : List String → Result (Option Duration) String
exit_after [] = ok none
exit_after (argument ∷ args) =
    let rest = exit_after args in
    if argument == "--exit-after-ms" then exit_after_value args else rest
