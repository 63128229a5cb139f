-- ===== src/Service/Messages.antt =====
-- service.rs: `handle_message`, a handler for each variant of `ApplicationToSam`.
use rust_state_machine_cowbo.Prelude.{
  String, Option, none, some, Result, ok, err, string_eq, nat_eq, ◌==◌, if◌then◌else◌,
}
use rust_state_machine_cowbo.Protocol.{
  SystemMode, HealthState, TransitionId, ApplicationId, mode_eq, health_eq, ApplicationToSam,
  SamToApplication, commit_mode, abort_mode,
}
use rust_state_machine_cowbo.Core.Mode.{
  ModeManager, ModeManagerState, stable, ModeEvent, preparation_complete, transition_complete,
  ModeError, invalid_phase, stale_transition, unknown_participant, mode_error_text, wrapping_add,
}
use rust_state_machine_cowbo.Core.Mode
use rust_state_machine_cowbo.Core.Registry.{
  Instant, ApplicationStatus, ApplicationRegistry, registry_error_text, iter,
}
use rust_state_machine_cowbo.Core.Registry
use rust_state_machine_cowbo.Service.State.{
  ConnectionId, ServiceError, duplicate_registration, mode, ServiceState,
  is_late_transition_response, verify_application, recalculate_health, verify_connection, broadcast,
  broadcast_state,
}

module _ {Sender : Type 0} where
  -- What follows when the mode manager has refused a response.
  abbrev pub refuse :
      ServiceState Sender → ModeError → ServiceState Sender × Result (Unit {0}) ServiceError
  refuse state e =
      if is_late_transition_response e
      then (state, ok tt)
      else (state, err (mode (mode_error_text e)))

module _ {Sender : Type 0} (try_send : Sender → SamToApplication → Option Sender) where
  -- `Heartbeat`, once the connection is verified.
  unfoldable pub on_heartbeat :
      ServiceState Sender
      → ApplicationId
      → ApplicationId
      → HealthState
      → SystemMode
      → Instant
      → ServiceState Sender × Result (Unit {0}) ServiceError
  on_heartbeat state registered application health current_mode now =
      elim (verify_application registered application) [
        | err e ↦ (state, err e)
        | ok _ ↦
            let updated =
              Registry.update_heartbeat state.applications application health current_mode now in
            let written = record state { applications = updated.0 } in
            elim updated.1 [
              | err e ↦ (written, err (mode (registry_error_text e)))
              | ok _ ↦
                  let after = recalculate_health written now in
                  (
                    if state.system.health == after.system.health
                        then after
                        else broadcast_state try_send after,
                    ok tt,
                  )
            ]
      ]

  abbrev pub announce_commit : ServiceState Sender → Option ModeEvent → ServiceState Sender
  announce_commit state none = state
  announce_commit state (some (preparation_complete transition_id target_mode)) =
      broadcast try_send state (commit_mode transition_id target_mode)
  announce_commit state (some _) = state

  unfoldable pub on_mode_ready :
      ServiceState Sender
      → ApplicationId
      → ApplicationId
      → TransitionId
      → ServiceState Sender × Result (Unit {0}) ServiceError
  on_mode_ready state registered application transition_id =
      elim (verify_application registered application) [
        | err e ↦ (state, err e)
        | ok _ ↦
            let answered = Mode.application_ready state.modes application transition_id in
            let after = record state { modes = answered.0 } in
            elim answered.1 [
              | ok event ↦ (announce_commit after event, ok tt)
              | err e ↦ refuse after e
            ]
      ]

  unfoldable pub on_mode_rejected :
      ServiceState Sender
      → ApplicationId
      → ApplicationId
      → TransitionId
      → String
      → ServiceState Sender × Result (Unit {0}) ServiceError
  on_mode_rejected state registered application transition_id reason =
      elim (verify_application registered application) [
        | err e ↦ (state, err e)
        | ok _ ↦
            let answered = Mode.application_rejected state.modes application transition_id reason in
            let after = record state { modes = answered.0 } in
            elim answered.1 [
              | ok event ↦ (broadcast try_send after (abort_mode transition_id), ok tt)
              | err e ↦ refuse after e
            ]
      ]

  abbrev pub adopt_mode : ServiceState Sender → Option ModeEvent → Instant → ServiceState Sender
  adopt_mode state none now = state
  adopt_mode state (some (transition_complete transition_id new_mode)) now =
      broadcast_state try_send (
        recalculate_health
          (record state { system = record { mode = new_mode; health = state.system.health } }) now)
  adopt_mode state (some _) now = state

  unfoldable pub on_mode_committed :
      ServiceState Sender
      → ApplicationId
      → ApplicationId
      → TransitionId
      → SystemMode
      → Instant
      → ServiceState Sender × Result (Unit {0}) ServiceError
  on_mode_committed state registered application transition_id committed_mode now =
      elim (verify_application registered application) [
        | err e ↦ (state, err e)
        | ok _ ↦
            let answered =
              Mode.application_committed state.modes application transition_id committed_mode in
            let after = record state { modes = answered.0 } in
            elim answered.1 [
              | err e ↦ refuse after e
              | ok event ↦
                  let recorded = Registry.set_mode state.applications application committed_mode in
                  let written = record after { applications = recorded.0 } in
                  elim recorded.1 [
                    | err e ↦ (written, err (mode (registry_error_text e)))
                    | ok _ ↦ (adopt_mode written event now, ok tt)
                  ]
            ]
      ]

  -- The `match` of `handle_message`.
  unfoldable pub dispatch :
      ServiceState Sender
      → ApplicationId
      → ApplicationToSam
      → Instant
      → ServiceState Sender × Result (Unit {0}) ServiceError
  unfolding on_heartbeat on_mode_ready on_mode_rejected on_mode_committed
  dispatch state registered (ApplicationToSam.register application version) now =
      (state, err duplicate_registration)
  dispatch state registered (ApplicationToSam.heartbeat application health current_mode) now =
      on_heartbeat state registered application health current_mode now
  dispatch state registered (ApplicationToSam.mode_ready application transition_id) now =
      on_mode_ready state registered application transition_id
  dispatch state registered (ApplicationToSam.mode_rejected application transition_id reason) now =
      on_mode_rejected state registered application transition_id reason
  dispatch state registered (ApplicationToSam.mode_committed application transition_id m) now =
      on_mode_committed state registered application transition_id m now

  unfoldable pub handle_message :
      ServiceState Sender
      → ApplicationId
      → ConnectionId
      → ApplicationToSam
      → Instant
      → ServiceState Sender × Result (Unit {0}) ServiceError
  unfolding verify_connection dispatch
  handle_message state registered connection_id message now =
      elim (verify_connection state registered connection_id) [
        | err e ↦ (state, err e)
        | ok _ ↦ dispatch state registered message now
      ]
