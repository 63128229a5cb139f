-- ===== src/Server/Served.antt =====
-- Every client of the service has a task that serves it, and that will clean up behind it.
use rust_state_machine_cowbo.Prelude.{
  ℕ, zero, suc, List, [], ◌∷◌, ◌++◌, Option, some, Result, ok, err, Exists, nat_eq, string_eq, ◌≡◌,
  sym, ◌∙◌, ◌⊎◌, inl, inr, Result-cases, Option-cases, arith,
}
use rust_state_machine_cowbo.HashMap.{HashMap, get-insert, get-remove}
use rust_state_machine_cowbo.HashMap
use rust_state_machine_cowbo.Protocol.{SystemMode, ApplicationId, SamToApplication}
use rust_state_machine_cowbo.Core.Registry.{Instant}
use rust_state_machine_cowbo.Transport.Error.{TransportError}
use rust_state_machine_cowbo.Service.State.{ServiceState, ConnectionId}
use rust_state_machine_cowbo.Service.Methods.{request_mode, refresh_health}
use rust_state_machine_cowbo.Service.Delivery.{id-deliver_all}
use rust_state_machine_cowbo.Service.Connections.{current_id}
use rust_state_machine_cowbo.Server.Program
use rust_state_machine_cowbo.Server.Hands.{Serves, task_step-Hands}
use rust_state_machine_cowbo.Service.State
use rust_state_machine_cowbo.Core.Health.{Duration}
use rust_state_machine_cowbo.Transport.Endpoint.{LocalEndpoint}
use rust_state_machine_cowbo.Server.Program.{
  Task, awaiting, active, leaving, finished, TaskEvent, begins, sends, receives, cleans_up,
  ServerEvent, accepts, ticks, continues, operates, Program, begin, turn, clean_up, task_step,
  step_task, server_step, run_loop, run,
}

-- Each client has a task.
abbrev pub IsServed : {C E Sender : Type 0} → ServiceState Sender → List (Task C E) → Type 0
IsServed s tasks =
    (a : ApplicationId) (id : ConnectionId)
    → current_id a s.clients ≡ some id
    → Exists (Serves a id) tasks

module _ {Sender C E : Type 0} (try_send : Sender → SamToApplication → Option Sender)
    (send : C → SamToApplication → C × Result (Unit {0}) (TransportError E)) where
  -- A step of one task, among all the tasks.
  step_task-Hands :
      (s : ServiceState Sender) (tasks : List (Task C E)) (n : ℕ) (event : TaskEvent E Sender)
      (a : ApplicationId) (id : ConnectionId)
      → (let done = step_task try_send send s tasks n event in
          current_id a done.0.clients ≡ some id
          → Exists (Serves a id) done.1
            ⊎ ((current_id a s.clients ≡ some id)
                × (Exists (Serves a id) tasks → Exists (Serves a id) done.1)))
  unfolding step_task
  step_task-Hands s [] n event a id k = inr (k, λ e. e)
  step_task-Hands s (task ∷ tasks) zero event a id k =
      elim (task_step-Hands try_send send s task event a id k) [
        | inl f ↦ inl (inl f)
        | inr (k', f) ↦ inr (k', λ e. elim e [ inl here ↦ inl (f here) | inr there ↦ inr there ])
      ]
  step_task-Hands s (task ∷ tasks) (suc n) event a id k =
      elim (step_task-Hands s tasks n event a id k) [
        | inl f ↦ inl (inr f)
        | inr (k', f) ↦ inr (k', λ e. elim e [ inl here ↦ inl here | inr there ↦ inr (f there) ])
      ]

  step_task-IsServed :
      (s : ServiceState Sender) (tasks : List (Task C E)) (n : ℕ) (event : TaskEvent E Sender)
      → IsServed s tasks
      → (let done = step_task try_send send s tasks n event in IsServed done.0 done.1)
  step_task-IsServed s tasks n event v a id k = elim (step_task-Hands s tasks n event a id k) [
    | inl f ↦ f
    | inr (k', f) ↦ f (v a id k')
  ]

  Exists-append :
      (a : ApplicationId) (id : ConnectionId) (tasks new : List (Task C E))
      → Exists (Serves a id) tasks
      → Exists (Serves a id) (tasks ++ new)
  Exists-append a id [] new h = absurd h
  Exists-append a id (task ∷ tasks) new (inl h) = inl h
  Exists-append a id (task ∷ tasks) new (inr h) = inr (Exists-append a id tasks new h)

  refresh_health_same :
      (s : ServiceState Sender) (now : Instant) (a : ApplicationId)
      → current_id a (refresh_health try_send s now).clients ≡ current_id a s.clients
  unfolding refresh_health
  refresh_health_same s now a = grind (arith, id-deliver_all try_send)

  request_mode_same :
      (s : ServiceState Sender) (target : SystemMode) (a : ApplicationId)
      → current_id a (request_mode try_send s target).0.clients ≡ current_id a s.clients
  unfolding request_mode
  request_mode_same s target a = grind (arith, id-deliver_all try_send)

  server_step-IsServed :
      (p : Program C E Sender) (event : ServerEvent C E Sender)
      → IsServed p.state p.tasks
      → IsServed (server_step try_send send p event).state (server_step try_send send p event).tasks
  unfolding server_step
  server_step-IsServed p (accepts accepted) v = elim (Option-cases p.returned) [
    | inr (r, q) ↦ rw q v
    | inl q ↦ elim (Result-cases accepted) [
      | inl (c, e) ↦ rw (q, e) (λ a id k. Exists-append a id p.tasks _ (v a id k))
      | inr (x, e) ↦ rw (q, e) v
    ]
  ]
  server_step-IsServed p (ticks now) v =
      λ a id k. v a id (sym (refresh_health_same p.state now a) ∙ k)
  server_step-IsServed p (continues task event) v = step_task-IsServed p.state p.tasks task event v
  server_step-IsServed p (operates target) v =
      λ a id k. v a id (sym (request_mode_same p.state target a) ∙ k)

  run_loop-IsServed :
      (p : Program C E Sender) (events : List (ServerEvent C E Sender))
      → IsServed p.state p.tasks
      → IsServed (run_loop try_send send p events).state (run_loop try_send send p events).tasks
  unfolding run_loop
  run_loop-IsServed p [] v = v
  run_loop-IsServed p (event ∷ events) v =
      run_loop-IsServed (server_step try_send send p event) events (server_step-IsServed p event v)

  -- However the tasks of the server take turns, each client of the service is that of a connection
  -- whose task has not returned yet: the session of the application runs under the client's connection
  -- id, or its clean-up is still to come.
  pub run-IsServed :
      {Listener : Type 0} (endpoint : LocalEndpoint) (timeout : Duration)
      (bound : Result Listener (TransportError E)) (events : List (ServerEvent C E Sender))
      → (let p = run try_send send (Program.new endpoint (State.new timeout)) bound events in
          IsServed p.state p.tasks)
  unfolding run State.new HashMap.get
  run-IsServed endpoint timeout (err e) events = λ a id k. cc
  run-IsServed endpoint timeout (ok listener) events = run_loop-IsServed _ events (λ a id k. cc)
