-- ===== src/AutoDemo.antt =====
-- apps/sam/src/auto_demo.rs: the options of the automatic demo, its waiting and its stages. What it says
-- in the log is left out.
use rust_state_machine_cowbo.Prelude.{ℕ, String, Bool, true, false}
use rust_state_machine_cowbo.Core.Health.{Duration}
use rust_state_machine_cowbo.Service.State.{ServiceError}
pub mod Options
pub mod Waiting
pub mod Enabled
pub mod Deadline
pub mod Stages
pub mod Course
pub mod Ends
mod Tests

pub record AutoDemoConfig : Type 0 where
  pub enabled : Bool
  pub showcase : Bool
  pub expected_apps : ℕ
  pub timeout : Duration
  pub hold : Duration

pub data AutoDemoError : Type 0 where
  unknown_argument : (argument : String) → AutoDemoError
  missing_value : (flag : String) → AutoDemoError
  invalid_value : (flag : String) → AutoDemoError
  timed_out : (awaited : String) → AutoDemoError
  unexpected_state : (found : String) → AutoDemoError
  service : (error : ServiceError) → AutoDemoError
