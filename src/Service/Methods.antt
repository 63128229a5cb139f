-- ===== src/Service/Methods.antt =====
-- service.rs: registration, disconnection, mode requests and the periodic health check.
use rust_state_machine_cowbo.Prelude.{
  Option, none, some, Result, ok, err, string_eq, nat_eq, ◌==◌, if◌then◌else◌,
}
use rust_state_machine_cowbo.HashMap.{HashMap, is_some_and}
use rust_state_machine_cowbo.HashMap
use rust_state_machine_cowbo.Protocol.{
  SystemMode, TransitionId, ApplicationId, mode_eq, health_eq, protocol_version, SamToApplication,
  register_accepted, prepare_mode,
}
use rust_state_machine_cowbo.Core.Mode.{
  ModeManager, ModeManagerState, stable, ModeEvent, preparation_complete, transition_complete,
  ModeError, invalid_phase, stale_transition, unknown_participant, mode_error_text, wrapping_add,
}
use rust_state_machine_cowbo.Core.Mode
use rust_state_machine_cowbo.Core.Registry.{
  Instant, ApplicationStatus, ApplicationRegistry, registry_error_text, iter,
}
use rust_state_machine_cowbo.Core.Registry
use rust_state_machine_cowbo.Service.State.{
  ConnectionId, ServiceError, state_unavailable, mode, ServiceState, recalculate_health, broadcast,
  broadcast_state,
}

module _ {Sender : Type 0} where
  -- What the source does before it queues the reply; it stays if that fails.
  abbrev pub enter : ServiceState Sender → ApplicationId → Instant → ServiceState Sender
  enter state application now =
      recalculate_health
        (record state {
          next_connection_id = wrapping_add state.next_connection_id 1;
          applications = Registry.register state.applications application now;
        })
        now

module _ {Sender : Type 0} (try_send : Sender → SamToApplication → Option Sender) where
  unfoldable pub register :
      ServiceState Sender
      → ApplicationId
      → Sender
      → Instant
      → ServiceState Sender × Result ConnectionId ServiceError
  register state application outbound now =
      let entered = enter state application now in
      elim (try_send outbound
        (register_accepted protocol_version entered.system.mode entered.system.health)) [
          | none ↦ (entered, err state_unavailable)
          | some outbound' ↦ (
            record entered {
              clients =
                  HashMap.insert application
                    (record { id = state.next_connection_id; outbound = outbound' })
                    entered.clients;
            },
            ok state.next_connection_id,
          )
        ]

  unfoldable pub disconnect :
      ServiceState Sender
      → ApplicationId
      → ConnectionId
      → Instant
      → ServiceState Sender × Result (Unit {0}) ServiceError
  disconnect state application connection_id now =
      if is_some_and (λ client. client.id == connection_id) (HashMap.get application state.clients)
      then (
        broadcast_state try_send (
            recalculate_health
              (record state {
                clients = HashMap.remove application state.clients;
                applications = (Registry.mark_disconnected state.applications application).0;
              })
              now),
        ok tt,
      )
      else (state, ok tt)

  unfoldable pub request_mode :
      ServiceState Sender → SystemMode → ServiceState Sender × Result TransitionId ServiceError
  request_mode state target =
      let requested = Mode.request_transition state.modes target (HashMap.keys state.clients) in
      let after = record state { modes = requested.0 } in
      elim requested.1 [
        | err e ↦ (after, err (mode (mode_error_text e)))
        | ok id ↦ (broadcast try_send after (prepare_mode id target), ok id)
      ]

  unfoldable pub refresh_health : ServiceState Sender → Instant → ServiceState Sender
  refresh_health state now =
      let after = recalculate_health state now in
      if state.system.health == after.system.health then after else broadcast_state try_send after
