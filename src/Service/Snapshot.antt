-- ===== src/Service/Snapshot.antt =====
-- service.rs: `applications`, the view of the registry that an operator is shown.
use rust_state_machine_cowbo.Prelude.{
  Bool, true, false, not, ◌&&◌, ◌||◌, List, [], ◌∷◌, map, ◌==◌, if◌then◌else◌,
}
use Prim.Native.Nat.{Ordering}
use Prim.Native.String.{compare}
use rust_state_machine_cowbo.Protocol.{
  SystemMode, HealthState, healthy, degraded, failed, ApplicationId, mode_eq, health_eq,
}
use rust_state_machine_cowbo.Core.Registry.{Instant, ApplicationStatus, iter}
use rust_state_machine_cowbo.Core.Health.{
  Duration, HealthManager, calculate_application, saturating_duration_since,
}
use rust_state_machine_cowbo.Service.State.{ServiceState}

pub record ApplicationSnapshot : Type 0 where
  pub application : ApplicationId
  pub health : HealthState
  pub effective_health : HealthState
  pub current_mode : SystemMode
  pub connected : Bool
  pub synchronized : Bool
  pub heartbeat_age : Duration

abbrev pub effective_application_health : HealthState → Bool → HealthState
effective_application_health base_health synchronized =
    if base_health == failed
    then failed
    else if not synchronized || base_health == degraded
    then degraded
    else healthy

abbrev pub is_synchronized : SystemMode → ApplicationStatus → Bool
is_synchronized system_mode status = status.connected && status.current_mode == system_mode

-- The closure of the `map`.
unfoldable pub view :
    HealthManager → SystemMode → Instant → ApplicationId × ApplicationStatus → ApplicationSnapshot
view h system_mode now (id, status) = record {
  application = id;
  health = status.health;
  effective_health =
      effective_application_health (calculate_application h status now)
        (is_synchronized system_mode status);
  current_mode = status.current_mode;
  connected = status.connected;
  synchronized = is_synchronized system_mode status;
  heartbeat_age = saturating_duration_since now status.last_heartbeat;
}

abbrev is_after : Ordering → Bool
is_after Ordering.gt = true
is_after _ = false

-- The standard library's stable sort, by the ids. An item goes before the first that is not less.
unfoldable pub insert_sorted :
    ApplicationSnapshot → List ApplicationSnapshot → List ApplicationSnapshot
insert_sorted x [] = x ∷ []
insert_sorted x (y ∷ ys) =
    let rest = insert_sorted x ys in
    if is_after (compare x.application y.application) then y ∷ rest else x ∷ y ∷ ys

unfoldable pub sort_by_application : List ApplicationSnapshot → List ApplicationSnapshot
unfolding insert_sorted
sort_by_application [] = []
sort_by_application (x ∷ xs) = insert_sorted x (sort_by_application xs)

unfoldable pub applications :
    {Sender : Type 0} → ServiceState Sender → Instant → List ApplicationSnapshot
unfolding view sort_by_application
applications state now =
    sort_by_application (map (view state.health state.system.mode now) (iter state.applications))
