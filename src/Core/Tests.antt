-- ===== src/Core/Tests.antt =====
-- The theorems of the core at inputs that follow the source's unit tests.
use rust_state_machine_cowbo.Prelude.{
  true, List, [], ◌∷◌, ◌++◌, ok, err, ◌≡◌, refl, arith, string_eq,
}
use rust_state_machine_cowbo.HashSet
use rust_state_machine_cowbo.HashMap
use rust_state_machine_cowbo.Protocol.{standby, working, startup, healthy, degraded, ApplicationId}
use rust_state_machine_cowbo.Core.Mode.{
  ModeManager, stable, new, request_transition, current_mode, request, ready, rejected, committed,
  Operation, step, run,
}
use rust_state_machine_cowbo.Core.Mode.Invariant.{IsValidState, run-new-IsValidState}
use rust_state_machine_cowbo.Core.Mode.Confirming.{Occurs}
use rust_state_machine_cowbo.Core.Mode.Consent.{mode_change_needs_consent}
use rust_state_machine_cowbo.Core.Mode.Transitions.{delayed_response_ignored}
use rust_state_machine_cowbo.Core.Mode.Completion.{all_agree_complete, readies, commits}
use rust_state_machine_cowbo.Core.Registry.{
  ApplicationStatus, ApplicationRegistry, mark_disconnected, not_registered,
}
use rust_state_machine_cowbo.Core.Registry.Laws.{writes_lem}

abbrev both : List ApplicationId
both = "navigation" ∷ "guidance" ∷ []

abbrev idle : ModeManager
idle = record { state = stable standby; next_transition_id = 1 }

abbrev answers : List Operation
answers =
    ready "guidance" 1
    ∷ ready "navigation" 1
    ∷ committed "navigation" 1 working
    ∷ committed "guidance" 1 working
    ∷ []

request_idle : (request_transition idle working both).1 ≡ ok 1
unfolding request_transition HashSet.collect HashSet.contains
request_idle = refl

answered : current_mode (run (request_transition idle working both).0 answers) ≡ working
unfolding request_transition HashSet.collect HashSet.contains HashSet.remove run step
answered = refl

run-new-IsValidState_example :
    IsValidState (run (new standby) (request working both ∷ ready "guidance" 1 ∷ [])).state
run-new-IsValidState_example =
    run-new-IsValidState standby (request working both ∷ ready "guidance" 1 ∷ [])

mode_change_needs_consent_example :
    (current_mode (run (request_transition idle working both).0 answers) ≡ working)
    × Occurs (ready "guidance" 1) answers
    × Occurs (committed "guidance" 1 working) answers
unfolding HashSet.contains
mode_change_needs_consent_example =
    mode_change_needs_consent idle working both answers "guidance" request_idle
      (tt, (tt, (tt, (tt, tt)))) refl (λ e. cc answered)

all_agree_complete_example :
    (run
      (request_transition idle working both).0
      (readies 1 ("guidance" ∷ both) ++ commits 1 working both)).state
    ≡ stable working
unfolding HashSet.contains
all_agree_complete_example =
    all_agree_complete idle working both ("guidance" ∷ both) both request_idle (λ a h. ground arith)
      (λ a h. h)

abbrev gives_up : List Operation
gives_up = rejected "guidance" 1 "fault" ∷ []

request_again :
    (request_transition (run (request_transition idle working both).0 gives_up) working both).1
    ≡ ok 2
unfolding request_transition HashSet.collect HashSet.contains HashSet.remove run step
request_again = refl

delayed_response_ignored_example :
    step
      (request_transition (run (request_transition idle working both).0 gives_up) working both).0
      (ready "guidance" 1)
    ≡ (request_transition (run (request_transition idle working both).0 gives_up) working both).0
delayed_response_ignored_example =
    delayed_response_ignored idle working working both both gives_up (ready "guidance" 1)
      (omega arith) request_idle request_again refl

abbrev fresh : ApplicationStatus
fresh = record { current_mode = startup; health = healthy; last_heartbeat = 10; connected = true }

abbrev worn : ApplicationStatus
worn = record { current_mode = working; health = degraded; last_heartbeat = 4; connected = true }

abbrev two : ApplicationRegistry
two = ("navigation", fresh) ∷ ("guidance", worn) ∷ []

writes_lem_example : (mark_disconnected two "telemetry").1 ≡ err (not_registered "telemetry")
unfolding HashMap.get
writes_lem_example = (writes_lem two "telemetry" "guidance" healthy standby 12).0
