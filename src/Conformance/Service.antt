-- ===== src/Conformance/Service.antt =====
-- The unit tests of crates/sam-service/src/service.rs. The sender of a bounded channel has its
-- capacity and what is queued; a receiver takes from the queue of the client.
use rust_state_machine_cowbo.HashSet
use rust_state_machine_cowbo.Core.Health
use rust_state_machine_cowbo.Core.Registry
use rust_state_machine_cowbo.Core.Mode
use rust_state_machine_cowbo.Service.Snapshot
use rust_state_machine_cowbo.Service.State
use rust_state_machine_cowbo.Service.Messages
use rust_state_machine_cowbo.Service.Methods
use rust_state_machine_cowbo.Prelude.{
  ℕ, ◌+◌, ◌*◌, Bool, true, false, not, ◌&&◌, List, [], ◌∷◌, ◌++◌, Option, none, some, Result, err,
  ◌==◌, ◌≡◌, refl, length, ltb, is_ok, if◌then◌else◌, string_eq,
}
use rust_state_machine_cowbo.HashMap
use rust_state_machine_cowbo.Protocol.{
  SystemMode, startup, standby, working, healthy, degraded, failed, ApplicationId, ApplicationToSam,
  SamToApplication, prepare_mode, commit_mode, state_broadcast, mode_eq, health_eq,
}
use rust_state_machine_cowbo.Core.Registry.{Instant}
use rust_state_machine_cowbo.Core.Health.{Duration}
use rust_state_machine_cowbo.Service.State.{ConnectionId, ServiceError, application_mismatch}
use rust_state_machine_cowbo.Service.Snapshot.{ApplicationSnapshot}
use rust_state_machine_cowbo.Service.Shared.{
  SamService, snapshot, transition_in_progress, applications, disconnect, handle_message,
  request_mode, refresh_health,
}
use rust_state_machine_cowbo.Service.Shared
use rust_state_machine_cowbo.Conformance.Unwrap.{unwrap, unwrap_or_fail}

record Channel : Type 0 where
  capacity : ℕ
  queue : List SamToApplication

abbrev channel : ℕ → Channel
channel capacity = record { capacity = capacity; queue = [] }

abbrev try_send : Channel → SamToApplication → Option Channel
try_send sender message =
    if ltb (length sender.queue) sender.capacity
    then some (record sender { queue = sender.queue ++ message ∷ [] })
    else none

-- `rx.try_recv().unwrap()`
try_recv :
    SamService Channel → ApplicationId → (SamService Channel → SamToApplication → Bool) → Bool
try_recv service application rest =
    unwrap_or_fail (HashMap.get application service.inner.clients) λ client.
      elim client.outbound.queue [
        | [] ↦ false
        | message ∷ queue ↦
            rest
              (record service {
                inner = record service.inner {
                  clients =
                      HashMap.insert application
                        (record client { outbound = record client.outbound { queue = queue } })
                        service.inner.clients;
                };
              })
              message
      ]

abbrev second : Duration
second = 1000000000

abbrev now : Instant
now = 7

abbrev fresh : SamService Channel
fresh = Shared.new (2 * second)

-- A registration, and the answer taken from the queue.
abbrev joins :
    SamService Channel → ApplicationId → ℕ → (SamService Channel → ConnectionId → Bool) → Bool
joins service application capacity rest =
    unwrap (Shared.register try_send service application (channel capacity) now)
      λ service id. try_recv service application λ service _. rest service id

-- A message that is accepted.
abbrev sends :
    SamService Channel
    → ApplicationId
    → ConnectionId
    → ApplicationToSam
    → (SamService Channel → Bool)
    → Bool
sends service application id message rest =
    unwrap (handle_message try_send service application id message now) λ service _. rest service

abbrev mode_is : SamService Channel → SystemMode → Bool
mode_is service expected = unwrap (snapshot service) λ _ system. system.mode == expected

abbrev is_prepare : SamToApplication → Bool
is_prepare (prepare_mode id target) = true
is_prepare _ = false

abbrev is_commit : SamToApplication → Bool
is_commit (commit_mode id target) = true
is_commit _ = false

abbrev full_transition_is_broadcast_and_committed : Bool
full_transition_is_broadcast_and_committed =
    unwrap (Shared.register try_send fresh "navigation" (channel 16) now) λ s nav_id.
      joins s "guidance" 16 λ s guidance_id. try_recv s "navigation" λ s _.
        unwrap (request_mode try_send s working) λ s transition. try_recv s "navigation" λ s asked.
          try_recv s "guidance" λ s _.
            sends s "navigation" nav_id (ApplicationToSam.mode_ready "navigation" transition) λ s.
              sends s "guidance" guidance_id (ApplicationToSam.mode_ready "guidance" transition)
                λ s. try_recv s "navigation" λ s told. try_recv s "guidance" λ s _.
                  sends s "navigation" nav_id
                    (ApplicationToSam.mode_committed "navigation" transition working)
                    λ s.
                      sends s "guidance" guidance_id
                        (ApplicationToSam.mode_committed "guidance" transition working)
                        λ s. is_prepare asked && is_commit told && mode_is s working

abbrev transition_activity_clears_after_rejection : Bool
transition_activity_clears_after_rejection = joins fresh "telemetry" 8 λ s connection.
    unwrap (request_mode try_send s working) λ s transition.
      unwrap (transition_in_progress s) λ _ before. try_recv s "telemetry" λ s _.
        sends s "telemetry" connection
          (ApplicationToSam.mode_rejected "telemetry" transition "temporary safety interlock")
          λ s.
            unwrap (transition_in_progress s)
              λ _ afterwards. before && not afterwards && mode_is s startup

abbrev late_ready_after_another_application_rejects_is_ignored : Bool
late_ready_after_another_application_rejects_is_ignored =
    unwrap (Shared.register try_send fresh "navigation" (channel 8) now) λ s nav_connection.
      joins s "telemetry" 8 λ s telemetry_connection. try_recv s "navigation" λ s _.
        unwrap (request_mode try_send s working) λ s transition. try_recv s "navigation" λ s _.
          try_recv s "telemetry" λ s _.
            sends s "telemetry" telemetry_connection
              (ApplicationToSam.mode_rejected "telemetry" transition "temporary safety interlock")
              λ s.
                sends s "navigation" nav_connection
                  (ApplicationToSam.mode_ready "navigation" transition) λ s. mode_is s startup

abbrev is_mismatch : {A : Type 0} → Result A ServiceError → Bool
is_mismatch (err (application_mismatch expected actual)) = true
is_mismatch _ = false

abbrev application_cannot_impersonate_another_connection : Bool
application_cannot_impersonate_another_connection =
    unwrap (Shared.register try_send fresh "navigation" (channel 4) now) λ s id.
      is_mismatch
        (handle_message try_send s "navigation" id
          (ApplicationToSam.heartbeat "guidance" healthy startup) now).1

abbrev stale_disconnect_does_not_remove_replacement_connection : Bool
stale_disconnect_does_not_remove_replacement_connection =
    unwrap (Shared.register try_send fresh "navigation" (channel 4) now) λ s first.
      unwrap (Shared.register try_send s "navigation" (channel 4) now) λ s replacement.
        unwrap (disconnect try_send s "navigation" first now) λ s _.
          is_ok
            (handle_message try_send s "navigation" replacement
              (ApplicationToSam.heartbeat "navigation" healthy startup) now).1

abbrev is_failed_broadcast : SamToApplication → Bool
is_failed_broadcast (state_broadcast m failed) = true
is_failed_broadcast _ = false

-- `applications(now).unwrap()[0]`
abbrev first_application : SamService Channel → Instant → (ApplicationSnapshot → Bool) → Bool
first_application service time rest =
    unwrap (applications service time)
      λ _ found. elim found [ [] ↦ false | application ∷ _ ↦ rest application ]

abbrev heartbeat_expiration_broadcasts_failed_health : Bool
heartbeat_expiration_broadcasts_failed_health = joins fresh "navigation" 4 λ s _.
    unwrap (refresh_health try_send s (now + 3 * second)) λ s _. try_recv s "navigation" λ s told.
      first_application s (now + 3 * second)
        λ application. is_failed_broadcast told && application.effective_health == failed

abbrev mode_mismatch_is_degraded_until_application_synchronizes : Bool
mode_mismatch_is_degraded_until_application_synchronizes =
    joins fresh "navigation" 8 λ s connection.
      sends s "navigation" connection (ApplicationToSam.heartbeat "navigation" healthy standby) λ s.
        first_application s now λ application. unwrap (snapshot s) λ _ system.
          not application.synchronized
          && application.health == healthy
          && application.effective_health == degraded
          && system.health == degraded

service_tests_hold :
    (full_transition_is_broadcast_and_committed ≡ true)
    × (transition_activity_clears_after_rejection ≡ true)
    × (late_ready_after_another_application_rejects_is_ignored ≡ true)
    × (application_cannot_impersonate_another_connection ≡ true)
    × (stale_disconnect_does_not_remove_replacement_connection ≡ true)
    × (heartbeat_expiration_broadcasts_failed_health ≡ true)
    × (mode_mismatch_is_degraded_until_application_synchronizes ≡ true)
unfolding Shared.register Shared.with_lock Shared.lock Shared.new try_recv request_mode
    handle_message transition_in_progress snapshot applications disconnect refresh_health
    Methods.register Methods.request_mode Methods.disconnect Methods.refresh_health
    Messages.handle_message Messages.dispatch Messages.on_heartbeat Messages.on_mode_ready
    Messages.on_mode_rejected Messages.on_mode_committed State.new State.deliver State.deliver_all
    State.has_mode_mismatch State.verify_connection State.transition_in_progress Mode.new
    Mode.request_transition Mode.application_ready Mode.application_rejected
    Mode.application_committed Registry.new Registry.register Registry.set_mode
    Registry.update_heartbeat Registry.mark_disconnected Health.calculate Health.calculate_from
    Health.calculate_application Snapshot.applications Snapshot.view Snapshot.sort_by_application
    Snapshot.insert_sorted HashMap.get HashMap.insert HashMap.remove HashMap.keys HashSet.collect
    HashSet.insert HashSet.remove HashSet.contains
service_tests_hold = (refl, refl, refl, refl, refl, refl, refl)
