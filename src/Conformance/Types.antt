-- ===== src/Conformance/Types.antt =====
-- The unit tests of crates/sam-protocol/src/types.rs. A copy of a value is the value.
use rust_state_machine_cowbo.Prelude.{
  Bool, true, not, ◌&&◌, [], ◌==◌, ◌≡◌, refl, string_eq, nat_eq, length,
}
use rust_state_machine_cowbo.HashSet.{HashSet, insert, contains}
use rust_state_machine_cowbo.Protocol.{
  startup, standby, healthy, failed, ApplicationId, TransitionId, mode_eq, health_eq,
}

abbrev a : ApplicationId
a = "a"

abbrev application_id_equality_is_value_based : Bool
application_id_equality_is_value_based = a == "a" && not (a == "b")

abbrev ids : HashSet ApplicationId
ids = insert "guidance" (insert "navigation" (insert "navigation" []))

abbrev application_id_hashable_for_use_in_sets : Bool
application_id_hashable_for_use_in_sets = length ids == 2 && contains "navigation" ids

abbrev one : TransitionId
one = 1

abbrev transition_id_equality_and_copy : Bool
transition_id_equality_and_copy = one == one && not (one == 2)

abbrev system_mode_and_health_state_are_copy_and_comparable : Bool
system_mode_and_health_state_are_copy_and_comparable =
    startup == startup && not (startup == standby) && healthy == healthy && not (healthy == failed)

type_tests_hold :
    (application_id_equality_is_value_based ≡ true)
    × (application_id_hashable_for_use_in_sets ≡ true)
    × (transition_id_equality_and_copy ≡ true)
    × (system_mode_and_health_state_are_copy_and_comparable ≡ true)
unfolding insert
type_tests_hold = (refl, refl, refl, refl)
