-- ===== src/Server/Interleaving.antt =====
-- The tasks of the server work on the service one call at a time.
use rust_state_machine_cowbo.Prelude.{
  ◌++◌, if◌then◌else◌, ℕ, zero, suc, List, [], ◌∷◌, Option, none, some, Result, ok, err, ◌==◌,
  nat_eq, ◌≡◌, refl, sym, ap, subst, ◌∙◌, inl, inr, Result-cases, Option-cases, Bool-cases, arith,
}
use rust_state_machine_cowbo.Protocol.{
  ApplicationId, ApplicationToSam, SamToApplication, protocol_version,
}
use rust_state_machine_cowbo.Core.Registry.{Instant}
use rust_state_machine_cowbo.Core.Health.{Duration}
use rust_state_machine_cowbo.Transport.Error.{TransportError}
use rust_state_machine_cowbo.Transport.Endpoint.{LocalEndpoint}
use rust_state_machine_cowbo.Service.State.{ServiceState, ConnectionId}
use rust_state_machine_cowbo.Service.State
use rust_state_machine_cowbo.Service.Authority.{IsConsistent, run-new-IsConsistent}
use rust_state_machine_cowbo.Service.Methods.{register}
use rust_state_machine_cowbo.Service.Calls.{
  Call, registers, disconnects, messages, requests, refreshes, step, run-append_calls,
}
use rust_state_machine_cowbo.Service.Calls
use rust_state_machine_cowbo.Server.{SessionEvent, session_step, outgoing, incoming}
use rust_state_machine_cowbo.Server.Refinement.{session_step_state}
use rust_state_machine_cowbo.Server.Program.{
  Task, awaiting, active, leaving, finished, TaskEvent, begins, sends, receives, cleans_up,
  ServerEvent, accepts, ticks, continues, operates, Program, begin, turn, clean_up, task_step,
  step_task, server_step, run_loop, run,
}
use rust_state_machine_cowbo.Server.Program

-- The task with a number.
abbrev pub task_at : {C E : Type 0} → ℕ → List (Task C E) → Option (Task C E)
task_at n [] = none
task_at zero (task ∷ tasks) = some task
task_at (suc n) (task ∷ tasks) = task_at n tasks

-- The calls of the service that a step of a task ought to make.
abbrev pub task_calls : {C E Sender : Type 0} → Task C E → TaskEvent E Sender → List (Call Sender)
task_calls (awaiting c) (begins (some (ok (ApplicationToSam.register a version))) outbound now) =
    if version == protocol_version then registers a outbound now ∷ [] else []
task_calls (active c a i) (receives (ok message) now) = messages a i message now ∷ []
task_calls (leaving c a i result) (cleans_up now) = disconnects a i now ∷ []
task_calls task event = []

abbrev pub event_calls :
    {C E Sender : Type 0} → List (Task C E) → ServerEvent C E Sender → List (Call Sender)
event_calls tasks (accepts accepted) = []
event_calls tasks (ticks now) = refreshes now ∷ []
event_calls tasks (continues n event) = elim (task_at n tasks) [
  | none ↦ []
  | some task ↦ task_calls task event
]
event_calls tasks (operates target) = requests target ∷ []

module _ {Sender C E : Type 0} (try_send : Sender → SamToApplication → Option Sender)
    (send : C → SamToApplication → C × Result (Unit {0}) (TransportError E)) where
  -- The calls of a whole run, each by the task as it is then.
  unfoldable pub run_calls : Program C E Sender → List (ServerEvent C E Sender) → List (Call Sender)
  run_calls p [] = []
  run_calls p (event ∷ events) =
      event_calls p.tasks event ++ run_calls (server_step try_send send p event) events

  begin-calls :
      (s : ServiceState Sender) (c : C)
      (first : Option (Result ApplicationToSam (TransportError E))) (outbound : Sender)
      (now : Instant)
      → (begin try_send send s c first outbound now).0
        ≡ Calls.run try_send s (task_calls {C = C} (awaiting c) (begins first outbound now))
  unfolding begin step Calls.run
  begin-calls s c none outbound now = refl
  begin-calls s c (some (err e)) outbound now = refl
  begin-calls s c (some (ok (ApplicationToSam.register a v))) outbound now =
      elim (Bool-cases (v == protocol_version)) [
        | inr p ↦ ground (arith, p)
        | inl p ↦ elim (Result-cases (register try_send s a outbound now).1) [
          | inl (i, q) ↦ ground (arith, p, q)
          | inr (x, q) ↦ ground (arith, p, q)
        ]
      ]
  begin-calls s c (some (ok (ApplicationToSam.heartbeat a v m))) outbound now = refl
  begin-calls s c (some (ok (ApplicationToSam.mode_ready a i))) outbound now = refl
  begin-calls s c (some (ok (ApplicationToSam.mode_rejected a i r))) outbound now = refl
  begin-calls s c (some (ok (ApplicationToSam.mode_committed a i m))) outbound now = refl

  turn_state :
      (s : ServiceState Sender) (c : C) (a : ApplicationId) (i : ConnectionId)
      (event : SessionEvent E Sender)
      → (turn try_send send s c a i event).0 ≡ (session_step try_send send s c a i event).0.0
  unfolding turn
  turn_state s c a i event = elim (Option-cases (session_step try_send send s c a i event).1) [
    | inl q ↦ rw (turn, q) refl
    | inr (x, q) ↦ rw (turn, q) refl
  ]

  task_step-calls :
      (s : ServiceState Sender) (task : Task C E) (event : TaskEvent E Sender)
      → (task_step try_send send s task event).0 ≡ Calls.run try_send s (task_calls task event)
  unfolding task_step Calls.run
  task_step-calls s (awaiting c) (begins first outbound now) =
      unfold Calls.run in begin-calls s c first outbound now
  task_step-calls s (active c a i) (sends message) =
      turn_state s c a i (outgoing message)
      ∙ session_step_state try_send send s c a i (outgoing message)
  task_step-calls s (active c a i) (receives (ok message) now) =
      turn_state s c a i _ ∙ session_step_state try_send send s c a i (incoming (ok message) now)
  task_step-calls s (active c a i) (receives (err e) now) =
      turn_state s c a i _ ∙ session_step_state try_send send s c a i (incoming (err e) now)
  task_step-calls s (leaving c a i r) (cleans_up now) = unfold clean_up step in refl
  task_step-calls s (awaiting c) (sends message) = refl
  task_step-calls s (awaiting c) (receives message now) = refl
  task_step-calls s (awaiting c) (cleans_up now) = refl
  task_step-calls s (active c a i) (begins first outbound now) = refl
  task_step-calls s (active c a i) (cleans_up now) = refl
  task_step-calls s (leaving c a i r) (begins first outbound now) = refl
  task_step-calls s (leaving c a i r) (sends message) = refl
  task_step-calls s (leaving c a i r) (receives message now) = refl
  task_step-calls s (finished c r) event = refl

  step_task-calls :
      (s : ServiceState Sender) (tasks : List (Task C E)) (n : ℕ) (event : TaskEvent E Sender)
      → (step_task try_send send s tasks n event).0
        ≡ Calls.run try_send s (event_calls tasks (continues n event))
  unfolding step_task Calls.run
  step_task-calls s [] n event = refl
  step_task-calls s (task ∷ tasks) zero event = task_step-calls s task event
  step_task-calls s (task ∷ tasks) (suc n) event = step_task-calls s tasks n event

  accept_state :
      (p : Program C E Sender) (accepted : Result C (TransportError E))
      → (server_step try_send send p (accepts accepted)).state ≡ p.state
  unfolding server_step
  accept_state p (ok c) = ground arith
  accept_state p (err e) = ground arith

  server_step-calls :
      (p : Program C E Sender) (event : ServerEvent C E Sender)
      → (server_step try_send send p event).state
        ≡ Calls.run try_send p.state (event_calls p.tasks event)
  unfolding server_step step Calls.run
  server_step-calls p (accepts accepted) = accept_state p accepted
  server_step-calls p (ticks now) = refl
  server_step-calls p (continues n event) = step_task-calls p.state p.tasks n event
  server_step-calls p (operates target) = refl

  pub run_loop-calls :
      (p : Program C E Sender) (events : List (ServerEvent C E Sender))
      → (run_loop try_send send p events).state ≡ Calls.run try_send p.state (run_calls p events)
  unfolding run_loop run_calls Calls.run
  run_loop-calls p [] = refl
  run_loop-calls p (event ∷ events) =
      run_loop-calls (server_step try_send send p event) events
      ∙ ap (λ s. Calls.run try_send s (run_calls (server_step try_send send p event) events))
          (server_step-calls p event)
      ∙ sym (
          run-append_calls try_send p.state (event_calls p.tasks event)
            (run_calls (server_step try_send send p event) events))

  -- So a server that starts with a new service keeps it consistent.
  pub run-IsConsistent :
      {Listener : Type 0} (endpoint : LocalEndpoint) (timeout : Duration)
      (bound : Result Listener (TransportError E)) (events : List (ServerEvent C E Sender))
      → IsConsistent
          (run try_send send (Program.new endpoint (State.new timeout)) bound events).state
  unfolding run
  run-IsConsistent endpoint timeout (err e) events =
      unfold Calls.run in run-new-IsConsistent try_send timeout []
  run-IsConsistent endpoint timeout (ok listener) events =
      subst IsConsistent (sym (run_loop-calls _ events)) (run-new-IsConsistent try_send timeout _)
