-- ===== src/AutoDemo/Stages.antt =====
-- apps/sam/src/auto_demo.rs: `run_auto_demo` and `run_showcase`. Each stage meets a `Look` of its own,
-- since other tasks call the service between two stages. Sleeping is the way to the next stage.
use rust_state_machine_cowbo.Prelude.{
  ℕ, suc, Bool, true, false, List, [], ◌∷◌, ◌++◌, Option, none, some, Result, ok, err,
  if◌then◌else◌,
}
use rust_state_machine_cowbo.Protocol.{
  SystemMode, standby, working, healthy, failed, SamToApplication,
}
use rust_state_machine_cowbo.Core.Registry.{Instant}
use rust_state_machine_cowbo.Service.State.{ServiceState}
use rust_state_machine_cowbo.AutoDemo.{AutoDemoConfig, AutoDemoError}
use rust_state_machine_cowbo.AutoDemo.Waiting.{
  Poll, wait_for_applications, wait_for_application, wait_for_health, transition_to,
  expect_rejected_transition,
}

-- The service and the clock at the start of a stage, the service when a stage makes its request, its
-- rounds, and the service at its last look.
pub record Look (Sender : Type 0) : Type 0 where
  pub state : ServiceState Sender
  pub asked : ServiceState Sender
  pub start : Instant
  pub polls : List (Poll Sender)
  pub last : ServiceState Sender

-- The states that the requests of the stages leave, and how the stages end, if they have ended.
abbrev pub Stages : Type 0 → Type 0
Stages Sender = List (ServiceState Sender) × Option (Result (Unit {0}) AutoDemoError)

module _ {Sender : Type 0} where
  -- A stage that makes no request, and one that makes one.
  abbrev pub watch : Option (Result (Unit {0}) AutoDemoError) → Stages Sender
  watch result = ([], result)

  abbrev pub request :
      ServiceState Sender × Option (Result (Unit {0}) AutoDemoError) → Stages Sender
  request stage = (stage.0 ∷ [], stage.1)

  -- `.await?` and what follows.
  infixr 5 ◌>>>◌
  unfoldable pub ◌>>>◌ : Stages Sender → Stages Sender → Stages Sender
  (states, none) >>> next = (states, none)
  (states, some (err e)) >>> next = (states, some (err e))
  (states, some (ok _)) >>> next = (states ++ next.0, next.1)

module _ {Sender : Type 0} (try_send : Sender → SamToApplication → Option Sender)
    (config : AutoDemoConfig) where
  -- The calls of the waiting functions at one stage.
  abbrev pub transition_at : Look Sender → SystemMode → Stages Sender
  transition_at look target =
      request
        (transition_to try_send look.state look.asked target config.timeout look.start look.polls)

  abbrev pub telemetry_at : Look Sender → (connected synchronized : Bool) → Stages Sender
  telemetry_at look connected synchronized =
      watch (
        wait_for_application "telemetry" connected synchronized config.timeout look.start
          look.polls)

  unfoldable pub run_showcase : (ℕ → Look Sender) → Stages Sender
  run_showcase look =
      transition_at (look 0) standby
      >>> telemetry_at (look 1) false false
      >>> watch (wait_for_health failed config.timeout (look 2).start (look 2).polls)
      >>> telemetry_at (look 3) true true
      >>> watch (wait_for_health healthy config.timeout (look 4).start (look 4).polls)
      >>> request (
          expect_rejected_transition try_send (look 5).state (look 5).asked working config.timeout
            (look 5).start (look 5).polls (look 5).last)
      >>> transition_at (look 6) working
      >>> transition_at (look 7) standby

  -- The loop of `run_auto_demo`.
  unfoldable pub transitions : List SystemMode → (ℕ → Look Sender) → Stages Sender
  transitions [] look = watch (some (ok tt))
  transitions (target ∷ targets) look =
      transition_at (look 0) target >>> transitions targets (λ n. look (suc n))

  unfoldable pub run_auto_demo : (ℕ → Look Sender) → Stages Sender
  run_auto_demo look =
      let rest : ℕ → Look Sender = λ n. look (suc n) in
      watch
        (wait_for_applications config.expected_apps config.timeout (look 0).start (look 0).polls)
      >>> (if config.showcase
          then run_showcase rest
          else transitions (standby ∷ working ∷ standby ∷ []) rest)
