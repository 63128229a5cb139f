-- ===== src/AutoDemo/Tests.antt =====
-- The theorems of the automatic demo at options that follow the source's unit tests, and on a service
-- with one application.
use rust_state_machine_cowbo.Prelude.{
  ℕ, zero, suc, ◌+◌, ◌≤◌, Result, true, false, List, [], ◌∷◌, ◌++◌, Option, some, Exists, ◌≡◌, refl,
  ◌⊎◌, inl, arith,
}
use rust_state_machine_cowbo.Protocol.{
  SystemMode, startup, standby, working, healthy, SamToApplication,
}
use rust_state_machine_cowbo.Core.Mode.{ModeManagerState, stable, request_transition}
use rust_state_machine_cowbo.HashMap
use rust_state_machine_cowbo.HashSet
use rust_state_machine_cowbo.Service.State.{ServiceState}
use rust_state_machine_cowbo.Service.Methods.{request_mode}
use rust_state_machine_cowbo.Service.Snapshot.{applications}
use rust_state_machine_cowbo.AutoDemo.{AutoDemoConfig, AutoDemoError}
use rust_state_machine_cowbo.AutoDemo.Waiting.{
  count, ready, poll_until, wait_for_applications, transition_to,
}
use rust_state_machine_cowbo.AutoDemo.Stages.{Look, ◌>>>◌, transitions, run_auto_demo}
use rust_state_machine_cowbo.AutoDemo.Course.{Showcased, AllMoved, run_auto_demo_ok}
use rust_state_machine_cowbo.AutoDemo.Ends.{run_auto_demo_ends}

abbrev options : AutoDemoConfig
options = record {
  enabled = true;
  showcase = false;
  expected_apps = 4;
  timeout = 30000;
  hold = 1000;
}

abbrev Queued : Type 0
Queued = List SamToApplication

abbrev try_send : Queued → SamToApplication → Option Queued
try_send queued message = some (queued ++ message ∷ [])

abbrev service_in : SystemMode → ModeManagerState → ServiceState Queued
service_in m s = record {
  system = record { mode = m; health = healthy };
  applications = [];
  health = record { heartbeat_timeout = 2 };
  modes = record { state = s; next_transition_id = 1 };
  clients = ("telemetry", record { id = 1; outbound = [] }) ∷ [];
  next_connection_id = 2;
}

-- No application is expected; the demo then asks for Standby, Working and Standby, and finds the mode
-- changed at the first look of each stage.
abbrev demo : AutoDemoConfig
demo = record { enabled = true; showcase = false; expected_apps = 0; timeout = 50; hold = 1000 }

abbrev step_look : SystemMode → SystemMode → Look Queued
step_look before after = record {
  state = service_in before (stable before);
  asked = service_in before (stable before);
  start = 0;
  polls = record { state = service_in after (stable after); now = 60; checked = 60 } ∷ [];
  last = service_in after (stable after);
}

abbrev look : ℕ → Look Queued
look zero = step_look startup startup
look (suc zero) = step_look startup standby
look (suc (suc zero)) = step_look standby working
look (suc (suc (suc n))) = step_look working standby

run_auto_demo_ends_example :
    (r : Result (Unit {0}) AutoDemoError) × ((run_auto_demo try_send demo look).1 ≡ some r)
run_auto_demo_ends_example = run_auto_demo_ends try_send demo look late
  where
    late : (n : ℕ) → Exists (λ poll. (look n).start + 50 ≤ poll.checked) (look n).polls
    late zero = inl (omega arith)
    late (suc zero) = inl (omega arith)
    late (suc (suc zero)) = inl (omega arith)
    late (suc (suc (suc n))) = inl (omega arith)

run_auto_demo_ok_example :
    Exists (λ poll. 0 ≤ ready poll) (look 0).polls
    × (((false ≡ true) × Showcased try_send demo (λ n. look (suc n)))
        ⊎ ((false ≡ false)
            × AllMoved try_send demo (standby ∷ working ∷ standby ∷ []) (λ n. look (suc n))))
unfolding run_auto_demo ◌>>>◌ wait_for_applications poll_until transitions transition_to count
    applications request_mode request_transition HashSet.collect HashMap.keys
run_auto_demo_ok_example = run_auto_demo_ok try_send demo look refl
