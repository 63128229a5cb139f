-- ===== src/Service/Tests.antt =====
-- The theorems of the service at inputs that follow the source's unit tests. A sender is the list
-- of what is queued on it, of which there is room for 32.
use rust_state_machine_cowbo.Prelude.{
  ℕ, true, List, [], ◌∷◌, ◌++◌, Option, none, some, ok, err, ◌≡◌, refl, arith, string_eq, ◌⊎◌, inr,
  ltb, if◌then◌else◌, length, nat_eq,
}
use text.Mathlib.TextEquality.{eq_iff}
use rust_state_machine_cowbo.HashSet
use rust_state_machine_cowbo.HashMap
use rust_state_machine_cowbo.Protocol.{
  SystemMode, standby, working, startup, healthy, failed, ApplicationId, ApplicationToSam,
  SamToApplication, state_broadcast, prepare_mode, commit_mode, abort_mode,
}
use rust_state_machine_cowbo.Core.Mode.{
  ModeManager, stable, preparing, committing, transition_in_progress, mode_error_text,
  application_committed, request_transition,
}
use rust_state_machine_cowbo.Core.Registry.{ApplicationStatus}
use rust_state_machine_cowbo.Core.Registry
use rust_state_machine_cowbo.Service.State.{
  ServiceState, ClientConnection, new, state_unavailable, stale_connection, application_mismatch,
  mode, verify_connection, recalculate_health, duplicate_registration,
}
use rust_state_machine_cowbo.Service.Methods.{register, disconnect, request_mode, refresh_health}
use rust_state_machine_cowbo.Service.Messages.{handle_message}
use rust_state_machine_cowbo.Service.Snapshot.{applications}
use rust_state_machine_cowbo.Service.Calls.{
  Call, registers, disconnects, messages, requests, refreshes, step, run,
}
use rust_state_machine_cowbo.Service.Authority.{IsConsistent, run-new-IsConsistent}
use rust_state_machine_cowbo.Service.Errors.{
  impersonation_refused, origin_error, refused_message_unchanged, late_response_ignored,
}
use rust_state_machine_cowbo.Service.Shared.{SamService}
use rust_state_machine_cowbo.Service.Connections.{superseded_connection_is_dead}
use rust_state_machine_cowbo.Service.Health.{worst_effective, recalculate_health-eq-worst_effective}
use rust_state_machine_cowbo.Service.Blocked.{lost_participant_blocks}
use rust_state_machine_cowbo.Service.Broadcasts.{
  AllTold, request_mode_asks_clients, registration_not_announced,
}
use rust_state_machine_cowbo.Core.Mode.Turning.{IsLast, IsNotLast}
use rust_state_machine_cowbo.Service.Announcements.{
  commit_announced, abort_announced, completion_announced,
}

abbrev Queued : Type 0
Queued = List SamToApplication

abbrev send : Queued → SamToApplication → Option Queued
send queued message = if ltb (length queued) 32 then some (queued ++ message ∷ []) else none

abbrev status : SystemMode → ApplicationStatus
status m = record { current_mode = m; health = healthy; last_heartbeat = 10; connected = true }

abbrev client : ℕ → ClientConnection Queued
client n = record { id = n; outbound = [] }

abbrev service_with : ModeManager → ServiceState Queued
service_with m = record {
  system = record { mode = startup; health = healthy };
  applications = ("navigation", status startup) ∷ ("guidance", status startup) ∷ [];
  health = record { heartbeat_timeout = 2 };
  modes = m;
  clients = ("navigation", client 1) ∷ ("guidance", client 2) ∷ [];
  next_connection_id = 3;
}

abbrev calm : ServiceState Queued
calm = service_with (record { state = stable startup; next_transition_id = 1 })

-- One approval is missing.
abbrev asking : ServiceState Queued
asking = service_with (record {
  state = preparing 1 startup working ("guidance" ∷ []) ("navigation" ∷ []);
  next_transition_id = 2;
})

-- One confirmation is missing.
abbrev finishing : ServiceState Queued
finishing = service_with (record {
  state = committing 1 startup working ("guidance" ∷ []) ("navigation" ∷ []);
  next_transition_id = 2;
})

calm-IsConsistent : IsConsistent calm
unfolding HashMap.get
calm-IsConsistent = record { present = λ b k. ground arith; agrees = refl; valid = tt }

finishing-IsConsistent : IsConsistent finishing
unfolding HashMap.get HashSet.contains
finishing-IsConsistent = record {
  present = λ b k. ground arith;
  agrees = refl;
  valid = (
    λ e. cc,
    refl,
    λ a k.
        ground (arith, eq_iff "navigation" a, eq_iff "guidance" a, eq_iff "navigation" "guidance"),
  );
}

run-new-IsConsistent_example : IsConsistent (
    run send
      (new 2)
      (registers "navigation" [] 1 ∷ requests working ∷ disconnects "navigation" 1 2 ∷ []))
run-new-IsConsistent_example =
    run-new-IsConsistent send 2
      (registers "navigation" [] 1 ∷ requests working ∷ disconnects "navigation" 1 2 ∷ [])

impersonation_refused_example :
    (handle_message send calm "navigation" 1 (ApplicationToSam.mode_ready "guidance" 1) 10
      ≡ (calm, err (stale_connection "navigation")))
    ⊎ (handle_message send calm "navigation" 1 (ApplicationToSam.mode_ready "guidance" 1) 10
        ≡ (calm, err (origin_error "navigation" (ApplicationToSam.mode_ready "guidance" 1))))
impersonation_refused_example =
    impersonation_refused send calm "navigation" 1 (ApplicationToSam.mode_ready "guidance" 1) 10
      (λ e. cc)

refused_message_unchanged_example :
    (handle_message send finishing "guidance" 2
      (ApplicationToSam.mode_committed "guidance" 1 standby)
      10).0
    ≡ finishing
unfolding handle_message application_committed HashMap.get
refused_message_unchanged_example =
    refused_message_unchanged send finishing "guidance" 2
      (ApplicationToSam.mode_committed "guidance" 1 standby) 10 _ finishing-IsConsistent refl

late_response_ignored_example :
    handle_message send asking "navigation" 1 (ApplicationToSam.mode_ready "navigation" 1) 10
    ≡ (asking, ok tt)
unfolding verify_connection HashSet.contains HashMap.get
late_response_ignored_example =
    late_response_ignored send asking 1 (ApplicationToSam.mode_ready "navigation" 1) 10 refl
      (inr refl)

-- "navigation" connects, disconnects, and connects anew.
abbrev reconnected : ServiceState Queued
reconnected =
    run send
      (register send
        (run send (register send calm "navigation" [] 10).0 (disconnects "navigation" 3 11 ∷ []))
        "navigation" [] 12).0
      (refreshes 13 ∷ [])

superseded_connection_is_dead_example :
    (handle_message send reconnected "navigation" 3 (ApplicationToSam.mode_ready "navigation" 1) 14
      ≡ (reconnected, err (stale_connection "navigation")))
    × (disconnect send reconnected "navigation" 3 14 ≡ (reconnected, ok tt))
unfolding register run step HashMap.get HashMap.insert
superseded_connection_is_dead_example =
    superseded_connection_is_dead send calm "navigation" [] [] (disconnects "navigation" 3 11 ∷ [])
      (refreshes 13 ∷ []) (ApplicationToSam.mode_ready "navigation" 1) 10 12 14 {id = 3} {id' = 4}
      (omega arith) refl refl

recalculate_health-eq-worst_effective_example :
    (recalculate_health calm 20).system.health ≡ worst_effective (applications calm 20)
recalculate_health-eq-worst_effective_example = recalculate_health-eq-worst_effective calm 20

-- "guidance" is lost before it confirms.
abbrev outage : List (Call Queued)
outage =
    disconnects "guidance" 2 11
    ∷ registers "guidance" [] 12
    ∷ refreshes 13
    ∷ messages "guidance" 3 (ApplicationToSam.mode_rejected "guidance" 1 "restarted") 14
    ∷ []

lost_participant_blocks_example :
    ((run send finishing outage).system.mode ≡ startup)
    × ((request_mode send (run send finishing outage) standby).1
        ≡ err (mode (mode_error_text transition_in_progress)))
unfolding HashSet.contains
lost_participant_blocks_example =
    lost_participant_blocks send "guidance" startup finishing outage standby finishing-IsConsistent
      (refl, refl) (tt, (tt, (tt, (tt, tt))))

request_mode_asks_clients_example :
    AllTold send (prepare_mode 1 working) calm.clients (request_mode send calm working).0.clients
    × ((waiting : List ApplicationId) × ((request_mode send calm working).0.modes.state
          ≡ preparing 1 startup working waiting [])
        × ((b : ApplicationId) → HashSet.contains b waiting ≡ HashMap.contains_key b calm.clients))
unfolding request_mode request_transition HashMap.keys HashSet.collect HashSet.contains
request_mode_asks_clients_example = request_mode_asks_clients send calm working refl

-- "guidance" is gone, so that the system has failed.
abbrev degraded_service : ServiceState Queued
degraded_service = (disconnect send calm "guidance" 2 10).0

registration_not_announced_example :
    let t = (register send degraded_service "guidance" [] 10).0 in
    (HashMap.get "navigation" t.clients ≡ HashMap.get "navigation" degraded_service.clients)
    × (refresh_health send t 10 ≡ t)
registration_not_announced_example =
    registration_not_announced send degraded_service "guidance" "navigation" [] 10 (λ e. cc)

-- There the health goes from `Failed` to `Healthy`.
registration_recovers :
    (degraded_service.system.health ≡ failed)
    × ((register send degraded_service "guidance" [] 10).0.system.health ≡ healthy)
unfolding disconnect register HashMap.get rust_state_machine_cowbo.Core.Health.calculate
    Registry.mark_disconnected HashMap.insert
    rust_state_machine_cowbo.Core.Health.calculate_application Registry.register
    rust_state_machine_cowbo.Service.State.has_mode_mismatch
registration_recovers = (refl, refl)

commit_announced_example :
    let t =
      (handle_message send asking "guidance" 2 (ApplicationToSam.mode_ready "guidance" 1) 10).0 in
    (IsLast "guidance" ("guidance" ∷ [])
      × AllTold send (commit_mode 1 working) asking.clients t.clients
      × (t.modes.state ≡ committing 1 startup working ("guidance" ∷ "navigation" ∷ []) []))
    ⊎ (IsNotLast "guidance" ("guidance" ∷ [])
        × (t.clients ≡ asking.clients)
        × (t.modes.state
            ≡ preparing 1 startup working
                (HashSet.remove "guidance" ("guidance" ∷ []))
                (HashSet.insert "guidance" ("navigation" ∷ []))))
unfolding verify_connection HashMap.get HashSet.contains HashSet.insert
commit_announced_example =
    commit_announced send asking "guidance" 2 1 startup working ("guidance" ∷ [])
      ("navigation" ∷ []) 10 refl refl refl

abort_announced_example :
    let t =
      (handle_message send asking "guidance" 2
        (ApplicationToSam.mode_rejected "guidance" 1 "fault")
        10).0 in
    AllTold send (abort_mode 1) asking.clients t.clients
    × (t.modes.state ≡ stable startup)
    × (t.system ≡ asking.system)
unfolding verify_connection HashMap.get HashSet.contains
abort_announced_example =
    abort_announced send asking "guidance" 2 1 startup working ("guidance" ∷ []) ("navigation" ∷ [])
      "fault" 10 refl refl refl

completion_announced_example :
    let t =
      (handle_message send finishing "guidance" 2
        (ApplicationToSam.mode_committed "guidance" 1 working)
        10).0 in
    (IsLast "guidance" ("guidance" ∷ [])
      × (t.system.mode ≡ working)
      × (t.modes.state ≡ stable working)
      × (t.system.health ≡ worst_effective (applications t 10))
      × AllTold send (state_broadcast working t.system.health) finishing.clients t.clients)
    ⊎ (IsNotLast "guidance" ("guidance" ∷ [])
        × (t.system ≡ finishing.system)
        × (t.clients ≡ finishing.clients)
        × (t.modes.state
            ≡ committing 1 startup working
                (HashSet.remove "guidance" ("guidance" ∷ []))
                (HashSet.insert "guidance" ("navigation" ∷ []))))
unfolding verify_connection HashMap.get HashSet.contains
completion_announced_example =
    completion_announced send finishing "guidance" 2 1 startup working ("guidance" ∷ [])
      ("navigation" ∷ []) 10 finishing-IsConsistent refl refl refl

-- A task has panicked while it held the mutex.
abbrev poisoned : SamService Queued
poisoned = record { inner = calm; poisoned = true }
