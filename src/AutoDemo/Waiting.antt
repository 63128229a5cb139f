-- ===== src/AutoDemo/Waiting.antt =====
-- apps/sam/src/auto_demo.rs: the loops that poll the service. One round of a loop is a `Poll`, and
-- sleeping is the way to the next.
use rust_state_machine_cowbo.Prelude.{
  ℕ, suc, ◌+◌, String, Bool, true, false, not, ◌&&◌, ◌||◌, List, [], ◌∷◌, Option, none, some,
  Result, ok, err, ◌==◌, ◌<>◌, if◌then◌else◌, leb, display, string_eq,
}
use rust_state_machine_cowbo.Protocol.{
  SystemMode, startup, standby, working, HealthState, healthy, degraded, failed, TransitionId,
  SamToApplication, mode_eq, health_eq,
}
use rust_state_machine_cowbo.Core.Registry.{Instant}
use rust_state_machine_cowbo.Core.Health.{Duration}
use rust_state_machine_cowbo.Service.State.{ServiceState, snapshot, transition_in_progress}
use rust_state_machine_cowbo.Service.Methods.{request_mode}
use rust_state_machine_cowbo.Service.Snapshot.{ApplicationSnapshot, applications}
use rust_state_machine_cowbo.AutoDemo.{AutoDemoError, timed_out, unexpected_state, service}

-- The service and the clock when a round looks at them, and the clock when it looks at the deadline.
pub record Poll (Sender : Type 0) : Type 0 where
  pub state : ServiceState Sender
  pub now : Instant
  pub checked : Instant

-- `Debug` of the types that the messages show.
abbrev pub debug_mode : SystemMode → String
debug_mode startup = "Startup"
debug_mode standby = "Standby"
debug_mode working = "Working"

abbrev pub debug_health : HealthState → String
debug_health healthy = "Healthy"
debug_health degraded = "Degraded"
debug_health failed = "Failed"

unfoldable pub debug_transition_id : TransitionId → String
debug_transition_id id = "TransitionId(" <> display id <> ")"

abbrev pub debug_bool : Bool → String
debug_bool true = "true"
debug_bool false = "false"

-- Snapshots that pass a test.
unfoldable pub count : (ApplicationSnapshot → Bool) → List ApplicationSnapshot → ℕ
count test [] = 0
count test (application ∷ rest) =
    if test application then suc (count test rest) else count test rest

unfoldable pub any : (ApplicationSnapshot → Bool) → List ApplicationSnapshot → Bool
any test [] = false
any test (application ∷ rest) = test application || any test rest

module _ {Sender : Type 0} where
  -- The loop that all of them are: it ends when the test holds, or else at the deadline.
  unfoldable pub poll_until :
      (Poll Sender → Bool)
      → (Poll Sender → String)
      → Instant
      → List (Poll Sender)
      → Option (Result (Unit {0}) AutoDemoError)
  poll_until test awaited deadline [] = none
  poll_until test awaited deadline (poll ∷ polls) =
      let rest = poll_until test awaited deadline polls in
      if test poll
      then some (ok tt)
      else if leb deadline poll.checked
      then some (err (timed_out (awaited poll)))
      else rest

  abbrev pub ready : Poll Sender → ℕ
  ready poll =
      count (λ application. application.connected && application.synchronized)
        (applications poll.state poll.now)

  unfoldable pub wait_for_applications :
      ℕ → Duration → Instant → List (Poll Sender) → Option (Result (Unit {0}) AutoDemoError)
  wait_for_applications expected timeout start polls =
      poll_until (λ poll. leb expected (ready poll))
        (λ poll.
          display expected
          <> " connected and synchronized applications (found "
          <> display (ready poll)
          <> ")")
        (start + timeout) polls

  unfoldable pub wait_for_application :
      String
      → Bool
      → Bool
      → Duration
      → Instant
      → List (Poll Sender)
      → Option (Result (Unit {0}) AutoDemoError)
  wait_for_application name connected synchronized timeout start polls =
      poll_until
        (λ poll.
          any
            (λ application.
              application.application == name
              && (if connected then application.connected else not application.connected)
              && (not synchronized || application.synchronized))
            (applications poll.state poll.now))
        (λ poll.
          "application "
          <> name
          <> " connected="
          <> debug_bool connected
          <> ", synchronized="
          <> debug_bool synchronized)
        (start + timeout) polls

  unfoldable pub wait_for_health :
      HealthState
      → Duration
      → Instant
      → List (Poll Sender)
      → Option (Result (Unit {0}) AutoDemoError)
  wait_for_health expected timeout start polls =
      poll_until (λ poll. (snapshot poll.state).health == expected)
        (λ poll.
          "system health "
          <> debug_health expected
          <> " (currently "
          <> debug_health (snapshot poll.state).health
          <> ")")
        (start + timeout) polls

module _ {Sender : Type 0} (try_send : Sender → SamToApplication → Option Sender) where
  -- The snapshot and the request lock the service one after the other, so that other tasks may have called
  -- it in between: `seen` is the state of the snapshot, and `asked` that of the request. Both functions
  -- return the state that they leave, on which the polls go on.
  unfoldable pub transition_to :
      (seen asked : ServiceState Sender)
      → SystemMode
      → Duration
      → Instant
      → List (Poll Sender)
      → ServiceState Sender × Option (Result (Unit {0}) AutoDemoError)
  transition_to seen asked target timeout start polls =
      let requested = request_mode try_send asked target in
      if (snapshot seen).mode == target then (seen, some (ok tt)) else elim requested.1 [
        | err e ↦ (requested.0, some (err (service e)))
        | ok id ↦ (
          requested.0,
          poll_until (λ poll. (snapshot poll.state).mode == target)
              (λ poll. "transition " <> debug_transition_id id <> " to " <> debug_mode target)
              (start + timeout) polls,
        )
      ]

  -- The end of `expect_rejected_transition`, where `last` is the state of the last look.
  unfoldable pub check_retained :
      SystemMode → TransitionId → ServiceState Sender → Result (Unit {0}) AutoDemoError
  check_retained original_mode id last =
      if (snapshot last).mode == original_mode
      then ok tt
      else err (
          unexpected_state (
            "transition "
            <> debug_transition_id id
            <> " committed "
            <> debug_mode (snapshot last).mode
            <> " instead of being rejected"))

  unfoldable pub expect_rejected_transition :
      (seen asked : ServiceState Sender)
      → SystemMode
      → Duration
      → Instant
      → List (Poll Sender)
      → ServiceState Sender
      → ServiceState Sender × Option (Result (Unit {0}) AutoDemoError)
  expect_rejected_transition seen asked target timeout start polls last =
      let requested = request_mode try_send asked target in
      elim requested.1 [
        | err e ↦ (requested.0, some (err (service e)))
        | ok id ↦ (
          requested.0,
          elim (poll_until (λ poll. not (transition_in_progress poll.state))
              (λ poll. "rejection of transition " <> debug_transition_id id) (start + timeout)
              polls) [
                | none ↦ none
                | some (err e) ↦ some (err e)
                | some (ok _) ↦ some (check_retained (snapshot seen).mode id last)
              ],
        )
      ]
