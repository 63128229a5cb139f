-- ===== src/Conformance/Registry.antt =====
-- The unit tests of crates/sam-core/src/registry.rs and state.rs.
use rust_state_machine_cowbo.Prelude.{
  ◌+◌, ◌*◌, String, Bool, true, false, not, ◌&&◌, List, [], ◌∷◌, none, some, Result, ok, err, ◌==◌,
  ◌≡◌, refl, length, string_eq, nat_eq,
}
use rust_state_machine_cowbo.HashMap
use rust_state_machine_cowbo.Protocol.{
  startup, standby, working, healthy, degraded, mode_eq, health_eq,
}
use rust_state_machine_cowbo.Core.Registry.{
  Instant, ApplicationRegistry, RegistryError, not_registered, default, get, ids, iter, is_empty,
  update_heartbeat, mark_disconnected, set_mode,
}
use rust_state_machine_cowbo.Core.Registry
use rust_state_machine_cowbo.Core.Health.{default_state}
use rust_state_machine_cowbo.Conformance.Unwrap.{unwrap, unwrap_or_fail}

-- The moment at which a test starts, and a second.
abbrev start : Instant
start = 7

abbrev second : Instant
second = 1000000000

abbrev one : ApplicationRegistry
one = Registry.register default "navigation" start

abbrev is_unknown : {A : Type 0} → Result A RegistryError → Bool
is_unknown (err (not_registered application)) = application == "unknown"
is_unknown (ok a) = false

abbrev new_registry_is_empty : Bool
new_registry_is_empty = is_empty default && length (ids default) == 0

abbrev register_adds_application_with_default_status : Bool
register_adds_application_with_default_status = unwrap_or_fail (get one "navigation") λ status.
    not (is_empty one)
    && status.current_mode == startup
    && status.health == healthy
    && status.connected
    && status.last_heartbeat == start

abbrev register_twice_overwrites_previous_status : Bool
register_twice_overwrites_previous_status =
    unwrap (update_heartbeat one "navigation" degraded working (start + second)) λ registry _.
      unwrap_or_fail
        (get (Registry.register registry "navigation" (start + 2 * second)) "navigation")
        λ status. status.health == healthy && status.current_mode == startup

abbrev get_unknown_application_returns_none : Bool
get_unknown_application_returns_none = elim (get default "unknown") [ none ↦ true | some _ ↦ false ]

abbrev update_heartbeat_updates_fields_and_reconnects : Bool
update_heartbeat_updates_fields_and_reconnects =
    unwrap (mark_disconnected one "navigation") λ registry _.
      unwrap (update_heartbeat registry "navigation" degraded working (start + 5 * second))
        λ registry _. unwrap_or_fail (get registry "navigation") λ status.
          status.health == degraded
          && status.current_mode == working
          && status.last_heartbeat == start + 5 * second
          && status.connected

abbrev update_heartbeat_for_unregistered_application_errors : Bool
update_heartbeat_for_unregistered_application_errors =
    is_unknown (update_heartbeat default "unknown" healthy startup start).1

abbrev set_mode_updates_mode_without_changing_heartbeat_time : Bool
set_mode_updates_mode_without_changing_heartbeat_time =
    unwrap (set_mode one "navigation" standby) λ registry _.
      unwrap_or_fail (get registry "navigation")
        λ status. status.current_mode == standby && status.last_heartbeat == start

abbrev mark_disconnected_sets_connected_false : Bool
mark_disconnected_sets_connected_false =
    unwrap (mark_disconnected one "navigation")
      λ registry _. unwrap_or_fail (get registry "navigation") λ status. not status.connected

abbrev mark_disconnected_for_unregistered_application_errors : Bool
mark_disconnected_for_unregistered_application_errors =
    is_unknown (mark_disconnected default "unknown").1

-- The source sorts the ids first; here the table is in the order of the registrations.
abbrev are_both : List String → Bool
are_both (a ∷ b ∷ []) = a == "navigation" && b == "guidance"
are_both _ = false

abbrev ids_and_iter_reflect_all_registered_applications : Bool
ids_and_iter_reflect_all_registered_applications =
    let registry = Registry.register one "guidance" start in
    are_both (ids registry) && length (iter registry) == 2

abbrev default_state_starts_in_startup_and_healthy : Bool
default_state_starts_in_startup_and_healthy =
    default_state.mode == startup && default_state.health == healthy

registry_tests_hold :
    (new_registry_is_empty ≡ true)
    × (register_adds_application_with_default_status ≡ true)
    × (register_twice_overwrites_previous_status ≡ true)
    × (get_unknown_application_returns_none ≡ true)
    × (update_heartbeat_updates_fields_and_reconnects ≡ true)
    × (update_heartbeat_for_unregistered_application_errors ≡ true)
    × (set_mode_updates_mode_without_changing_heartbeat_time ≡ true)
    × (mark_disconnected_sets_connected_false ≡ true)
    × (mark_disconnected_for_unregistered_application_errors ≡ true)
    × (ids_and_iter_reflect_all_registered_applications ≡ true)
    × (default_state_starts_in_startup_and_healthy ≡ true)
unfolding is_empty HashMap.keys HashMap.get Registry.register HashMap.insert update_heartbeat
    mark_disconnected set_mode
registry_tests_hold = (refl, refl, refl, refl, refl, refl, refl, refl, refl, refl, refl)
