-- ===== src/Conformance/Health.antt =====
-- The unit tests of crates/sam-core/src/health.rs.
use rust_state_machine_cowbo.HashMap
use rust_state_machine_cowbo.Prelude.{◌+◌, ◌*◌, Bool, true, ◌==◌, ◌≡◌, refl}
use rust_state_machine_cowbo.Protocol.{
  startup, HealthState, healthy, degraded, failed, ApplicationId, mode_eq, health_eq,
}
use rust_state_machine_cowbo.Core.Registry.{
  Instant, ApplicationRegistry, default, get, update_heartbeat, mark_disconnected,
}
use rust_state_machine_cowbo.Core.Registry
use rust_state_machine_cowbo.Core.Health.{Duration, HealthManager, calculate, calculate_application}
use rust_state_machine_cowbo.Core.Health
use rust_state_machine_cowbo.Conformance.Unwrap.{unwrap, unwrap_or_fail}

abbrev start : Instant
start = 7

abbrev second : Duration
second = 1000000000

abbrev manager : HealthManager
manager = Health.new second

abbrev one : ApplicationRegistry
one = Registry.register default "navigation" start

abbrev two : ApplicationRegistry
two = Registry.register one "guidance" start

-- A heartbeat in Startup, at the start.
abbrev reports :
    ApplicationRegistry → ApplicationId → HealthState → (ApplicationRegistry → Bool) → Bool
reports registry application reported rest =
    unwrap (update_heartbeat registry application reported startup start) λ updated _. rest updated

abbrev empty_registry_is_healthy : Bool
empty_registry_is_healthy = calculate manager default start == healthy

abbrev all_healthy_applications_report_healthy : Bool
all_healthy_applications_report_healthy = reports two "navigation" healthy λ registry.
    reports registry "guidance" healthy λ registry. calculate manager registry start == healthy

abbrev degraded_application_degrades_overall_health : Bool
degraded_application_degrades_overall_health =
    reports one "navigation" degraded λ registry. calculate manager registry start == degraded

abbrev one_failed_application_fails_overall_health_even_if_others_healthy : Bool
one_failed_application_fails_overall_health_even_if_others_healthy =
    reports two "navigation" failed λ registry.
      reports registry "guidance" healthy λ registry. calculate manager registry start == failed

abbrev disconnected_application_fails_health_even_if_report_was_healthy : Bool
disconnected_application_fails_health_even_if_report_was_healthy =
    reports one "navigation" healthy λ registry.
      unwrap (mark_disconnected registry "navigation")
        λ registry _. calculate manager registry start == failed

abbrev heartbeat_exactly_at_timeout_boundary_is_still_healthy : Bool
heartbeat_exactly_at_timeout_boundary_is_still_healthy =
    reports one "navigation" healthy
      λ registry. calculate manager registry (start + second) == healthy

abbrev stale_heartbeat_fails_health : Bool
stale_heartbeat_fails_health =
    reports one "navigation" healthy
      λ registry. calculate manager registry (start + 2 * second) == failed

abbrev application_health_includes_stale_heartbeat : Bool
application_health_includes_stale_heartbeat =
    unwrap_or_fail (get one "navigation")
      λ status. calculate_application manager status (start + 2 * second) == failed

health_tests_hold :
    (empty_registry_is_healthy ≡ true)
    × (all_healthy_applications_report_healthy ≡ true)
    × (degraded_application_degrades_overall_health ≡ true)
    × (one_failed_application_fails_overall_health_even_if_others_healthy ≡ true)
    × (disconnected_application_fails_health_even_if_report_was_healthy ≡ true)
    × (heartbeat_exactly_at_timeout_boundary_is_still_healthy ≡ true)
    × (stale_heartbeat_fails_health ≡ true)
    × (application_health_includes_stale_heartbeat ≡ true)
unfolding calculate update_heartbeat HashMap.get Registry.register HashMap.insert
    calculate_application mark_disconnected
health_tests_hold = (refl, refl, refl, refl, refl, refl, refl, refl)
