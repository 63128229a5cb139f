-- ===== src/Server/Tests.antt =====
-- The theorems of the server on a connection that keeps what is sent to it.
use rust_state_machine_cowbo.Prelude.{
  String, List, [], ◌∷◌, ◌++◌, Option, none, some, Result, ok, err, All, ◌≡◌, refl, ◌⊎◌,
}
use rust_state_machine_cowbo.HashMap
use rust_state_machine_cowbo.Protocol.{
  healthy, standby, working, ApplicationToSam, SamToApplication, register_rejected,
  protocol_version,
}
use rust_state_machine_cowbo.Transport.Error.{TransportError, io, unexpected_eof}
use rust_state_machine_cowbo.Service.State.{ServiceState, verify_connection, stale_connection, new}
use rust_state_machine_cowbo.Service.Methods.{register, disconnect}
use rust_state_machine_cowbo.Service.Calls.{Call, refreshes, requests, run}
use rust_state_machine_cowbo.Server.{
  SessionEvent, outgoing, incoming, meanwhile, ServerError, serve_connection, serve_registered,
  run_registered_session, session_step,
}
use rust_state_machine_cowbo.Server.Admission.{
  refused_connection_unchanged, ended_session_is_disconnected,
}
use rust_state_machine_cowbo.Transport.Endpoint
use rust_state_machine_cowbo.Server.Program.{
  ServerEvent, accepts, ticks, continues, operates, begins, sends, receives, cleans_up, Program,
  Task, awaiting, active, finished, server_step, step_task, task_step, begin, turn, clean_up,
}
use rust_state_machine_cowbo.Server.Program
use rust_state_machine_cowbo.Server.Served.{IsServed, run-IsServed}
use rust_state_machine_cowbo.Server.Refinement.{IsCallOf, serve_connection-run}

abbrev Queued : Type 0
Queued = List SamToApplication

abbrev Failure : Type 0
Failure = TransportError (Unit {0})

abbrev try_send : Queued → SamToApplication → Option Queued
try_send queued message = some (queued ++ message ∷ [])

abbrev send : Queued → SamToApplication → Queued × Result (Unit {0}) Failure
send written message = (written ++ message ∷ [], ok tt)

abbrev fresh : ServiceState Queued
fresh = new 2

refused_connection_unchanged_example :
    let served =
      serve_connection try_send send fresh []
        (some (ok (ApplicationToSam.register "telemetry" 2)))
        []
        1
        []
        []
        2 in
    (served.0.0 ≡ fresh)
    × ((served.0.1 ≡ [])
        ⊎ ((reason : String) × (served.0.1 ≡ register_rejected protocol_version reason ∷ [])))
    × ((result : Result (Unit {0}) (ServerError (Unit {0}))) × (served.1 ≡ some result))
refused_connection_unchanged_example =
    refused_connection_unchanged try_send send fresh []
      (some (ok (ApplicationToSam.register "telemetry" 2))) [] 1 2 [] [] refl

-- A heartbeat, a request by the operator, the message that it queues, and the end of the stream.
abbrev session : List (SessionEvent (Unit {0}) Queued)
session =
    incoming (ok (ApplicationToSam.heartbeat "telemetry" healthy standby)) 2
    ∷ meanwhile (requests working)
    ∷ outgoing (some (SamToApplication.prepare_mode 1 working))
    ∷ incoming (err (io unexpected_eof)) 3
    ∷ []

abbrev served : (ServiceState Queued × Queued) × Option (Result (Unit {0}) (ServerError (Unit {0})))
served =
    serve_connection try_send send fresh []
      (some (ok (ApplicationToSam.register "telemetry" protocol_version))) [] 1 session
      (refreshes 4 ∷ []) 5

abbrev short : List (SessionEvent (Unit {0}) Queued)
short = outgoing (some (SamToApplication.abort_mode 1)) ∷ incoming (err (io unexpected_eof)) 3 ∷ []

ended_session_is_disconnected_example :
    verify_connection
      (serve_connection try_send send fresh []
        (some (ok (ApplicationToSam.register "telemetry" protocol_version)))
        []
        1
        short
        []
        5).0.0
      "telemetry"
      1
    ≡ err (stale_connection "telemetry")
unfolding register serve_connection serve_registered new run_registered_session session_step run
    disconnect HashMap.get HashMap.insert
ended_session_is_disconnected_example =
    ended_session_is_disconnected try_send send fresh [] "telemetry" [] 1 5 short [] (ok tt)
      {id = 1} refl refl

abbrev OfOthers : Call Queued → Type 0
OfOthers (refreshes now) = Unit
OfOthers (requests target) = Unit
OfOthers _ = ⊥

serve_connection-run_example :
    (cs : List (Call Queued)) × (served.0.0 ≡ run try_send fresh cs)
    × All (λ x. IsCallOf "telemetry" x ⊎ OfOthers x) cs
serve_connection-run_example =
    serve_connection-run try_send send OfOthers fresh [] "telemetry" protocol_version [] 1 5 session
      (refreshes 4 ∷ []) (tt, tt) (tt, tt)

-- Two applications register, a third connection opens with a heartbeat and is sent away, the operator
-- asks for a mode, and the first application leaves.
abbrev events : List (ServerEvent Queued (Unit {0}) Queued)
events =
    accepts (ok [])
    ∷ accepts (ok [])
    ∷ continues 0 (begins (some (ok (ApplicationToSam.register "telemetry" protocol_version))) [] 1)
    ∷ accepts (ok [])
    ∷ continues 1 (begins (some (ok (ApplicationToSam.register "guidance" protocol_version))) [] 2)
    ∷ continues 2 (begins (some (ok (ApplicationToSam.heartbeat "telemetry" healthy standby))) [] 2)
    ∷ ticks 3
    ∷ operates working
    ∷ continues 0 (sends (some (SamToApplication.prepare_mode 1 working)))
    ∷ continues 0 (receives (err (io unexpected_eof)) 4)
    ∷ continues 0 (cleans_up 5)
    ∷ accepts (err (io unexpected_eof))
    ∷ []

abbrev program : Program Queued (Unit {0}) Queued
program =
    Program.run try_send send (Program.new (Endpoint.new "/tmp/sam.sock") (new 2)) (ok tt) events

run-IsServed_example : IsServed program.state program.tasks
run-IsServed_example =
    run-IsServed try_send send (Endpoint.new "/tmp/sam.sock") 2 (ok (tt {0})) events

abbrev started : Program Queued (Unit {0}) Queued
started = record { state = fresh; tasks = []; returned = none }
