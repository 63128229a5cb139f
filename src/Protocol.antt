-- ===== src/Protocol.antt =====
-- crates/sam-protocol: the types and messages that SAM and the applications share.
-- A newtype of the source (`TransitionId(u64)`, `ApplicationId(String)`) is the type that it wraps.
use rust_state_machine_cowbo.Prelude.{ℕ, String, Bool, true, false, ◌≡◌, ◌↔◌, PartialEq, arith}

-- types.rs
pub data SystemMode : Type 0 where
  startup standby working : SystemMode

pub data HealthState : Type 0 where
  healthy degraded failed : HealthState

abbrev pub TransitionId : Type 0
TransitionId = ℕ

abbrev pub ApplicationId : Type 0
ApplicationId = String

-- `#[derive(PartialEq)]` on the two enumerations.
abbrev pub mode_beq : SystemMode → SystemMode → Bool
mode_beq startup startup = true
mode_beq standby standby = true
mode_beq working working = true
mode_beq _ _ = false

pub mode_beq_iff : (a b : SystemMode) → (mode_beq a b ≡ true) ↔ (a ≡ b)
mode_beq_iff a b = ground arith

abbrev pub health_beq : HealthState → HealthState → Bool
health_beq healthy healthy = true
health_beq degraded degraded = true
health_beq failed failed = true
health_beq _ _ = false

pub health_beq_iff : (a b : HealthState) → (health_beq a b ≡ true) ↔ (a ≡ b)
health_beq_iff a b = ground arith

instance abbrev pub mode_eq : PartialEq SystemMode
mode_eq = record { eq = mode_beq; eq_holds = mode_beq_iff }

instance abbrev pub health_eq : PartialEq HealthState
health_eq = record { eq = health_beq; eq_holds = health_beq_iff }

-- lib.rs
abbrev pub protocol_version : ℕ
protocol_version = 1

-- messages.rs. The fields stand in the order of the source.
pub data ApplicationToSam : Type 0 where
  register : (application : ApplicationId) (protocol_version : ℕ) → ApplicationToSam
  heartbeat :
      (application : ApplicationId) (health : HealthState) (current_mode : SystemMode)
      → ApplicationToSam
  mode_ready : (application : ApplicationId) (transition_id : TransitionId) → ApplicationToSam
  mode_rejected :
      (application : ApplicationId) (transition_id : TransitionId) (reason : String)
      → ApplicationToSam
  mode_committed :
      (application : ApplicationId) (transition_id : TransitionId) (mode : SystemMode)
      → ApplicationToSam

pub data SamToApplication : Type 0 where
  register_accepted :
      (protocol_version : ℕ) (current_mode : SystemMode) (system_health : HealthState)
      → SamToApplication
  prepare_mode : (transition_id : TransitionId) (requested_mode : SystemMode) → SamToApplication
  commit_mode : (transition_id : TransitionId) (mode : SystemMode) → SamToApplication
  abort_mode : (transition_id : TransitionId) → SamToApplication
  state_broadcast : (mode : SystemMode) (health : HealthState) → SamToApplication
  register_rejected : (supported_protocol_version : ℕ) (reason : String) → SamToApplication
