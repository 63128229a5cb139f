-- ===== src/Service/State.antt =====
-- service.rs: the shared state, the checks of a message's origin, health, and broadcasts.
use rust_state_machine_cowbo.Prelude.{
  ℕ, String, Bool, true, false, not, ◌&&◌, ◌||◌, List, [], ◌∷◌, Option, none, some, Result, ok, err,
  string_eq, nat_eq, ◌==◌, if◌then◌else◌,
}
use rust_state_machine_cowbo.HashMap.{HashMap, is_some_and}
use rust_state_machine_cowbo.HashMap
use rust_state_machine_cowbo.Protocol.{
  SystemMode, HealthState, healthy, degraded, failed, ApplicationId, mode_eq, health_eq,
  SamToApplication, state_broadcast,
}
use rust_state_machine_cowbo.Core.Mode.{
  ModeManager, ModeManagerState, stable, ModeEvent, preparation_complete, transition_complete,
  ModeError, invalid_phase, stale_transition, unknown_participant, mode_error_text, wrapping_add,
}
use rust_state_machine_cowbo.Core.Mode
use rust_state_machine_cowbo.Core.Registry.{
  Instant, ApplicationStatus, ApplicationRegistry, registry_error_text, iter,
}
use rust_state_machine_cowbo.Core.Registry
use rust_state_machine_cowbo.Core.Health.{
  Duration, HealthManager, SystemState, default_state, calculate,
}
use rust_state_machine_cowbo.Core.Health

abbrev pub ConnectionId : Type 0
ConnectionId = ℕ

pub data ServiceError : Type 0 where
  state_unavailable : ServiceError
  stale_connection : ApplicationId → ServiceError
  application_mismatch : (expected actual : ApplicationId) → ServiceError
  duplicate_registration : ServiceError
  mode : String → ServiceError

pub record ClientConnection (Sender : Type 0) : Type 0 where
  pub id : ConnectionId
  pub outbound : Sender

pub record ServiceState (Sender : Type 0) : Type 0 where
  pub system : SystemState
  pub applications : ApplicationRegistry
  pub health : HealthManager
  pub modes : ModeManager
  pub clients : HashMap ApplicationId (ClientConnection Sender)
  pub next_connection_id : ℕ

abbrev pub is_late_transition_response : ModeError → Bool
is_late_transition_response invalid_phase = true
is_late_transition_response stale_transition = true
is_late_transition_response (unknown_participant application) = true
is_late_transition_response _ = false

abbrev pub verify_application : ApplicationId → ApplicationId → Result (Unit {0}) ServiceError
verify_application expected actual =
    if expected == actual then ok tt else err (application_mismatch expected actual)

-- Some connected application reports another mode than the system's.
unfoldable pub has_mode_mismatch : SystemMode → List (ApplicationId × ApplicationStatus) → Bool
has_mode_mismatch system_mode [] = false
has_mode_mismatch system_mode ((_, application) ∷ rest) =
    application.connected && not (application.current_mode == system_mode)
    || has_mode_mismatch system_mode rest

-- The system's health from the reported health and the mismatch.
abbrev pub overall_health : HealthState → Bool → HealthState
overall_health reported_health mode_mismatch =
    if reported_health == failed
    then failed
    else if reported_health == degraded || mode_mismatch
    then degraded
    else healthy

unfoldable pub new : {Sender : Type 0} → Duration → ServiceState Sender
unfolding Mode.new
new heartbeat_timeout = record {
  system = default_state;
  applications = Registry.default;
  health = Health.new heartbeat_timeout;
  modes = Mode.new default_state.mode;
  clients = [];
  next_connection_id = 1;
}

module _ {Sender : Type 0} where
  abbrev pub recalculate_health : ServiceState Sender → Instant → ServiceState Sender
  recalculate_health state now = record state {
    system = record {
      mode = state.system.mode;
      health =
          overall_health (calculate state.health state.applications now)
            (has_mode_mismatch state.system.mode (iter state.applications));
    };
  }

  unfoldable pub verify_connection :
      ServiceState Sender → ApplicationId → ConnectionId → Result (Unit {0}) ServiceError
  verify_connection state app id =
      if is_some_and (λ client. client.id == id) (HashMap.get app state.clients)
      then ok tt
      else err (stale_connection app)

  abbrev pub snapshot : ServiceState Sender → SystemState
  snapshot state = state.system

  unfoldable pub transition_in_progress : ServiceState Sender → Bool
  transition_in_progress state = elim state.modes.state [ stable _ ↦ false | _ ↦ true ]

module _ {Sender : Type 0} (try_send : Sender → SamToApplication → Option Sender) where
  -- A message that cannot be queued is dropped, with a warning in the log.
  unfoldable pub deliver : SamToApplication → ClientConnection Sender → ClientConnection Sender
  deliver message client = elim (try_send client.outbound message) [
    | none ↦ client
    | some outbound ↦ record client { outbound = outbound }
  ]

  unfoldable pub deliver_all :
      SamToApplication
      → HashMap ApplicationId (ClientConnection Sender)
      → HashMap ApplicationId (ClientConnection Sender)
  unfolding deliver
  deliver_all message [] = []
  deliver_all message ((application, client) ∷ rest) =
      (application, deliver message client) ∷ deliver_all message rest

  abbrev pub broadcast : ServiceState Sender → SamToApplication → ServiceState Sender
  broadcast state message = record state { clients = deliver_all message state.clients }

  abbrev pub broadcast_state : ServiceState Sender → ServiceState Sender
  broadcast_state state = broadcast state (state_broadcast state.system.mode state.system.health)
