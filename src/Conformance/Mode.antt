-- ===== src/Conformance/Mode.antt =====
-- The unit tests of crates/sam-core/src/mode.rs.
use rust_state_machine_cowbo.Prelude.{
  ◌+◌, String, Bool, true, false, ◌&&◌, List, [], ◌∷◌, Option, none, some, Result, err, ◌==◌, ◌≡◌,
  refl,
}
use rust_state_machine_cowbo.HashSet
use rust_state_machine_cowbo.Protocol.{standby, working, mode_eq}
use rust_state_machine_cowbo.Core.Mode.{
  ModeManagerState, stable, ModeEvent, preparation_complete, transition_complete,
  transition_aborted, ModeError, stale_transition, request_transition, application_ready,
  application_committed, application_rejected, current_mode,
}
use rust_state_machine_cowbo.Core.Mode
use rust_state_machine_cowbo.Conformance.Unwrap.{unwrap}

abbrev is_none : {A : Type 0} → Option A → Bool
is_none none = true
is_none (some a) = false

abbrev is_preparation_complete : Option ModeEvent → Bool
is_preparation_complete (some (preparation_complete id target)) = true
is_preparation_complete _ = false

abbrev is_transition_complete : Option ModeEvent → Bool
is_transition_complete (some (transition_complete id m)) = true
is_transition_complete _ = false

abbrev is_stable_standby : ModeManagerState → Bool
is_stable_standby (stable standby) = true
is_stable_standby _ = false

abbrev is_stale : {A : Type 0} → Result A ModeError → Bool
is_stale (err stale_transition) = true
is_stale _ = false

abbrev both : List String
both = "navigation" ∷ "guidance" ∷ []

abbrev all_apps_ready_and_committed_complete_transition : Bool
all_apps_ready_and_committed_complete_transition =
    unwrap (request_transition (Mode.new standby) working both) λ manager id.
      unwrap (application_ready manager "navigation" id) λ manager first.
        unwrap (application_ready manager "guidance" id) λ preparing second.
          unwrap (application_committed preparing "navigation" id working) λ manager third.
            unwrap (application_committed manager "guidance" id working) λ manager fourth.
              is_none first
              && is_preparation_complete second
              && current_mode preparing == standby
              && is_none third
              && is_transition_complete fourth
              && current_mode manager == working

abbrev is_transition_aborted : ModeEvent → Bool
is_transition_aborted (transition_aborted id app reason) = true
is_transition_aborted _ = false

abbrev rejection_aborts_and_preserves_previous_mode : Bool
rejection_aborts_and_preserves_previous_mode =
    unwrap (request_transition (Mode.new standby) working both) λ manager id.
      unwrap (application_ready manager "navigation" id) λ manager first.
        unwrap (application_rejected manager "guidance" id "solution unavailable")
          λ manager event. is_transition_aborted event && is_stable_standby manager.state

abbrev stale_response_cannot_advance_transition : Bool
stale_response_cannot_advance_transition =
    unwrap (request_transition (Mode.new standby) working ("navigation" ∷ []))
      λ manager id. is_stale (application_ready manager "navigation" (id + 1)).1

mode_tests_hold :
    (all_apps_ready_and_committed_complete_transition ≡ true)
    × (rejection_aborts_and_preserves_previous_mode ≡ true)
    × (stale_response_cannot_advance_transition ≡ true)
unfolding request_transition Mode.new HashSet.collect application_ready HashSet.remove
    application_committed application_rejected
mode_tests_hold = (refl, refl, refl)
