-- ===== src/DemoApp/Executables.antt =====
-- apps/telemetry/src/main.rs, apps/navigation/src/main.rs and apps/guidance/src/main.rs, as functions
-- of the process's arguments and of what the sessions of the runtime meet.
use rust_state_machine_cowbo.Prelude.{
  ℕ, Bool, String, List, none, some, Result, ok, err, if◌then◌else◌,
}
use rust_state_machine_cowbo.Protocol.{ApplicationToSam}
use rust_state_machine_cowbo.Transport.Error.{TransportError}
use rust_state_machine_cowbo.Client.Runtime.{RuntimeError, Attempt, run}
use rust_state_machine_cowbo.Client.Config.{ApplicationRuntime, default_config}
use rust_state_machine_cowbo.Client.Config
use rust_state_machine_cowbo.DemoApp.{
  DemoHandler, demo_handler, with_reject_working_once, health_from, has_flag, reject_working_from,
  exit_after,
}
use rust_state_machine_cowbo.DemoApp

-- `main` runs on, returns an error, or exits with a code.
pub data Exit (E : Type 0) : Type 0 where
  runs : Exit E
  fails : (error : RuntimeError E) → Exit E
  exits : (status : ℕ) → Exit E

module _ {W E : Type 0}
    (send : W → ApplicationToSam → W × Result (Unit {0}) (TransportError E)) where
  -- `runtime.run(&mut handler).await`
  unfoldable pub run_handler :
      ApplicationRuntime → DemoHandler → List (Attempt W E) → DemoHandler × Exit E
  run_handler runtime handler attempts =
      let ran = run demo_handler send runtime.application handler attempts in
      (ran.0, elim ran.1 [ none ↦ runs | some e ↦ fails e ])

  unfoldable pub navigation_main : List String → List (Attempt W E) → DemoHandler × Exit E
  navigation_main args attempts =
      run_handler (Config.new "navigation" default_config)
        (DemoApp.new "navigation" (reject_working_from args) (health_from args)) attempts

  unfoldable pub guidance_main : List String → List (Attempt W E) → DemoHandler × Exit E
  guidance_main args attempts =
      run_handler (Config.new "guidance" default_config)
        (DemoApp.new "guidance" (reject_working_from args) (health_from args)) attempts

  abbrev pub telemetry_handler : List String → DemoHandler
  telemetry_handler args =
      with_reject_working_once
        (DemoApp.new "telemetry" (reject_working_from args) (health_from args))
        (has_flag args "--reject-working-once")

  -- `power_lost` says that the delay is over before the runtime returns.
  unfoldable pub telemetry_main : List String → Bool → List (Attempt W E) → DemoHandler × Exit E
  telemetry_main args power_lost attempts =
      let handler = telemetry_handler args in
      let ran = run_handler (Config.new "telemetry" default_config) handler attempts in
      elim (exit_after args) [
        | err reason ↦ (handler, exits 2)
        | ok none ↦ ran
        | ok (some delay) ↦ if power_lost then (ran.0, exits 75) else ran
      ]
