-- ===== src/DemoApp/Tests.antt =====
-- The theorems of the demo applications at flags and requests that follow the source's unit tests.
use rust_state_machine_cowbo.Prelude.{true, false, string_eq, nat_eq}
use rust_state_machine_cowbo.Protocol.{standby, healthy}
use rust_state_machine_cowbo.DemoApp.{DemoHandler}

abbrev telemetry : DemoHandler
telemetry = record {
  name = "telemetry";
  current_mode = standby;
  health = healthy;
  reject_working = false;
  reject_working_once = true;
}
