-- ===== src/Client/Tests.antt =====
-- The theorems of the client on a sender that keeps its messages, with the demo's handler.
use rust_state_machine_cowbo.Prelude.{false, List, [], ◌∷◌, ◌++◌, none, some, Result, ok, ◌≡◌, refl}
use rust_state_machine_cowbo.Protocol.{
  standby, working, healthy, failed, ApplicationToSam, register_accepted, register_rejected,
  prepare_mode, commit_mode, state_broadcast, protocol_version,
}
use rust_state_machine_cowbo.Protocol.{ApplicationId}
use rust_state_machine_cowbo.HashSet
use rust_state_machine_cowbo.Core.Mode.{ModeManager, stable, request_transition, run as run_manager}
use rust_state_machine_cowbo.Client.Agreement.{
  operations, replies, reply_to_prepare, reply_to_commit, sessions_reach_agreement,
}
use rust_state_machine_cowbo.Transport.Error.{TransportError}
use rust_state_machine_cowbo.Client.Messages
use rust_state_machine_cowbo.Client.Handler.{default_synchronize_mode}
use rust_state_machine_cowbo.Client.Runtime.{
  LoopEvent, heartbeat_tick, incoming, inbound_closed, Attempt, on_registration, session_loop, run,
  on_event, on_message, on_prepare, on_commit,
}
use rust_state_machine_cowbo.Client.Answers.{Answers, session_loop-Answers}
use rust_state_machine_cowbo.Client.Permanent.{Returns, run-Returns}
use rust_state_machine_cowbo.Client.Synchronized.{session-current_mode}
use rust_state_machine_cowbo.DemoApp.{DemoHandler, demo_handler}
use rust_state_machine_cowbo.DemoApp
use rust_state_machine_cowbo.DemoApp.Policy.{demo_handler-TakesOnModes}

abbrev Failure : Type 0
Failure = TransportError (Unit {0})

abbrev send :
    List ApplicationToSam → ApplicationToSam → List ApplicationToSam × Result (Unit {0}) Failure
send log message = (log ++ message ∷ [], ok tt)

abbrev telemetry : DemoHandler
telemetry = DemoApp.new "telemetry" false healthy

abbrev transition : List (LoopEvent (Unit {0}))
transition =
    heartbeat_tick
    ∷ incoming (ok (prepare_mode 1 working))
    ∷ incoming (ok (commit_mode 1 working))
    ∷ incoming (ok (state_broadcast working failed))
    ∷ []

session_loop-Answers_example :
    (ms : List ApplicationToSam) × ((session_loop demo_handler send "telemetry" [] telemetry
        transition).0.0
      ≡ ms)
    × Answers "telemetry" transition ms
unfolding session_loop on_event on_message on_prepare on_commit Messages.heartbeat
    Messages.mode_ready Messages.mode_committed DemoApp.new DemoApp.prepare_mode DemoApp.commit_mode
session_loop-Answers_example =
    session_loop-Answers demo_handler send "telemetry" (λ w. w) [] telemetry transition
      (λ w m k. refl) refl

abbrev attempts : List (Attempt (List ApplicationToSam) (Unit {0}))
attempts =
    record { connected = ok []; registration = none; events = [] }
    ∷ record {
      connected = ok [];
      registration = some (ok (register_accepted protocol_version standby healthy));
      events = heartbeat_tick ∷ inbound_closed ∷ [];
    }
    ∷ record {
      connected = ok [];
      registration = some (ok (register_rejected 2 "too old"));
      events = [];
    }
    ∷ []

run-Returns_example :
    Returns demo_handler send "telemetry" telemetry attempts
      (run demo_handler send "telemetry" telemetry attempts).1
run-Returns_example = run-Returns demo_handler send "telemetry" telemetry attempts

session-current_mode_example :
    (protocol_version ≡ protocol_version)
    × ((session_loop demo_handler send "telemetry" []
          (record telemetry { current_mode = standby })
          transition).0.1.current_mode
        ≡ working)
unfolding on_registration session_loop DemoApp.new default_synchronize_mode DemoApp.prepare_mode
    DemoApp.commit_mode on_event Messages.heartbeat on_message on_prepare Messages.mode_ready
    on_commit Messages.mode_committed
session-current_mode_example =
    session-current_mode demo_handler send "telemetry" telemetry [] protocol_version standby healthy
      transition demo_handler-TakesOnModes refl refl

abbrev idle : ModeManager
idle = record { state = stable standby; next_transition_id = 1 }

abbrev both : List ApplicationId
both = "navigation" ∷ "guidance" ∷ []

sessions_reach_agreement_example :
    (run_manager (request_transition idle working both).0 (
      operations (
        replies (reply_to_prepare (Unit {0}) demo_handler (λ a. telemetry) 1 working) both
        ++ replies
            (reply_to_commit (Unit {0}) demo_handler (λ a. telemetry) 1 working)
            both))).state
    ≡ stable working
unfolding request_transition HashSet.collect HashSet.contains DemoApp.new DemoApp.prepare_mode
    DemoApp.commit_mode
sessions_reach_agreement_example =
    sessions_reach_agreement (Unit {0}) demo_handler (λ a. telemetry) idle working both both both
      refl (λ a h. h) (λ a h. h) (λ a. refl) (λ a. refl)
