-- ===== src/Conformance/Runtime.antt =====
-- The unit tests of crates/sam-client/src/runtime.rs. The server of a test is what it sends: the answer
-- to `Register`, and then the end of the connection. What the application sends is kept in a list.
use rust_state_machine_cowbo.Prelude.{
  ◌+◌, ◌*◌, Bool, true, false, ◌&&◌, String, List, [], ◌∷◌, ◌++◌, Option, some, Result, ok, err,
  ◌==◌, ◌≡◌, refl, nat_eq,
}
use rust_state_machine_cowbo.Protocol.{
  SystemMode, startup, standby, HealthState, healthy, degraded, ApplicationToSam, SamToApplication,
  register_accepted, register_rejected, protocol_version, mode_eq, health_eq,
}
use rust_state_machine_cowbo.Transport.Error.{TransportError, io, unexpected_eof}
use rust_state_machine_cowbo.Transport.Endpoint.{LocalEndpoint}
use rust_state_machine_cowbo.Client.Config.{RuntimeConfig}
use rust_state_machine_cowbo.Client.Handler.{ModeHandler, default_synchronize_mode}
use rust_state_machine_cowbo.Client.Messages
use rust_state_machine_cowbo.Client.Runtime.{
  RuntimeError, registration_rejected, protocol_version_mismatch, transport, heartbeat_tick,
  LoopEvent, incoming, Attempt, run, run_session, session_loop, on_event, on_registration,
}

abbrev config_for : LocalEndpoint → RuntimeConfig
config_for endpoint = record {
  endpoint = endpoint;
  heartbeat_interval = 20 * 1000000;
  reconnect_delay = 10 * 1000000;
  registration_timeout = 5 * 1000000000;
}

record RecordingHandler : Type 0 where
  state_changes : List (SystemMode × HealthState)
  current_mode : SystemMode

abbrev default_handler : RecordingHandler
default_handler = record { state_changes = []; current_mode = startup }

abbrev commit : RecordingHandler → SystemMode → RecordingHandler × Result (Unit {0}) String
commit handler mode = (record handler { current_mode = mode }, ok tt)

abbrev prepare : RecordingHandler → SystemMode → RecordingHandler × Result (Unit {0}) String
prepare handler requested = (handler, ok tt)

-- `synchronize_mode` and `abort_mode` are what the trait gives.
abbrev recording_handler : ModeHandler RecordingHandler
recording_handler = record {
  health = λ handler. healthy;
  current_mode = λ handler. handler.current_mode;
  prepare_mode = prepare;
  commit_mode = commit;
  synchronize_mode = default_synchronize_mode (λ handler. handler.current_mode) prepare commit;
  abort_mode = λ handler id. handler;
  system_state_changed = λ handler mode health. record handler {
    state_changes = handler.state_changes ++ (mode, health) ∷ [];
  };
}

abbrev Log : Type 0
Log = List ApplicationToSam

abbrev send : Log → ApplicationToSam → Log × Result (Unit {0}) (TransportError (Unit {0}))
send log message = (log ++ message ∷ [], ok tt)

abbrev server_sends : SamToApplication → List (LoopEvent (Unit {0})) → Attempt Log (Unit {0})
server_sends answer events = record {
  connected = ok [];
  registration = some (ok answer);
  events = events;
}

abbrev is_rejection : Option (RuntimeError (Unit {0})) → Bool
is_rejection (some (registration_rejected version reason)) = true
is_rejection _ = false

abbrev is_version_mismatch : Option (RuntimeError (Unit {0})) → Bool
is_version_mismatch (some (protocol_version_mismatch received supported)) = true
is_version_mismatch _ = false

abbrev is_transport : Option (RuntimeError (Unit {0})) → Bool
is_transport (some (transport error)) = true
is_transport _ = false

-- The runtime is given one server: it would have no result if it tried another session.
abbrev registration_rejection_is_terminal_and_not_retried : Bool
registration_rejection_is_terminal_and_not_retried =
    is_rejection
      (run recording_handler send "navigation" default_handler
        (server_sends (register_rejected (protocol_version + 1) "client too old") [] ∷ [])).1

abbrev protocol_version_mismatch_is_terminal_and_not_retried : Bool
protocol_version_mismatch_is_terminal_and_not_retried =
    is_version_mismatch
      (run recording_handler send "navigation" default_handler
        (server_sends (register_accepted (protocol_version + 1) startup healthy) [] ∷ [])).1

abbrev changed_to : SystemMode → HealthState → List (SystemMode × HealthState) → Bool
changed_to mode reported ((m, h) ∷ []) = m == mode && h == reported
changed_to mode reported _ = false

abbrev successful_registration_reports_initial_state_and_sends_heartbeats : Bool
successful_registration_reports_initial_state_and_sends_heartbeats =
    let ended = run_session recording_handler send "navigation" default_handler (
      server_sends (register_accepted protocol_version standby degraded)
        (heartbeat_tick ∷ heartbeat_tick ∷ incoming (err (io unexpected_eof)) ∷ [])) in
    is_transport ended.1
    && changed_to standby degraded ended.0.state_changes
    && ended.0.current_mode == standby

runtime_tests_hold :
    (registration_rejection_is_terminal_and_not_retried ≡ true)
    × (protocol_version_mismatch_is_terminal_and_not_retried ≡ true)
    × (successful_registration_reports_initial_state_and_sends_heartbeats ≡ true)
unfolding run run_session session_loop on_event on_registration default_synchronize_mode
    Messages.register Messages.heartbeat
runtime_tests_hold = (refl, refl, refl)
