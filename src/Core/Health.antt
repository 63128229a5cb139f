-- ===== src/Core/Health.antt =====
-- crates/sam-core/src/health.rs and state.rs: the health of one application and of the system.
pub mod Aggregate
use rust_state_machine_cowbo.Prelude.{
  ℕ, ◌-◌, Bool, not, ◌||◌, List, [], ◌∷◌, ◌==◌, if◌then◌else◌, ltb,
}
use rust_state_machine_cowbo.Protocol.{
  SystemMode, startup, HealthState, healthy, degraded, failed, health_eq, ApplicationId,
}
use rust_state_machine_cowbo.Core.Registry.{Instant, ApplicationStatus, ApplicationRegistry, iter}

-- A `Duration` is a number of nanoseconds.
abbrev pub Duration : Type 0
Duration = ℕ

-- `Instant::saturating_duration_since`: zero where `earlier` is later.
abbrev pub saturating_duration_since : Instant → Instant → Duration
saturating_duration_since now earlier = now - earlier

pub record HealthManager : Type 0 where
  pub heartbeat_timeout : Duration

abbrev pub new : Duration → HealthManager
new heartbeat_timeout = record { heartbeat_timeout = heartbeat_timeout }

unfoldable pub calculate_application : HealthManager → ApplicationStatus → Instant → HealthState
calculate_application h application now =
    if not application.connected
      || ltb h.heartbeat_timeout (saturating_duration_since now application.last_heartbeat)
      || application.health == failed
    then failed
    else application.health

-- The loop of `calculate`, with `overall` so far.
unfoldable pub calculate_from :
    HealthManager → Instant → HealthState → List (ApplicationId × ApplicationStatus) → HealthState
calculate_from h now overall [] = overall
calculate_from h now overall ((_, application) ∷ rest) =
    elim (calculate_application h application now) [
      | failed ↦ failed
      | degraded ↦ calculate_from h now degraded rest
      | healthy ↦ calculate_from h now overall rest
    ]

unfoldable pub calculate : HealthManager → ApplicationRegistry → Instant → HealthState
unfolding calculate_from
calculate h registry now = calculate_from h now healthy (iter registry)

-- state.rs
pub record SystemState : Type 0 where
  pub mode : SystemMode
  pub health : HealthState

abbrev pub default_state : SystemState
default_state = record { mode = startup; health = healthy }
