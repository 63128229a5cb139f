-- ===== src/Server/Program.antt =====
-- crates/sam-service/src/server.rs: `SamServer`, and the tasks that its `run` spawns, one for the
-- health check and one for each accepted connection. An event is a step of one of the tasks, and a
-- list of events any interleaving of them. A task of a connection is where `serve_connection` waits.
use rust_state_machine_cowbo.Prelude.{
  ℕ, zero, suc, ◌*◌, String, not, List, [], ◌∷◌, ◌++◌, Option, none, some, Result, ok, err, map_err,
  ◌==◌, ◌<>◌, if◌then◌else◌, display, nat_eq,
}
use rust_state_machine_cowbo.Protocol.{
  SystemMode, ApplicationId, ApplicationToSam, SamToApplication, register_rejected,
  protocol_version,
}
use rust_state_machine_cowbo.Core.Registry.{Instant}
use rust_state_machine_cowbo.Core.Health.{Duration}
use rust_state_machine_cowbo.Transport.Error.{TransportError}
use rust_state_machine_cowbo.Transport.Endpoint.{LocalEndpoint}
use rust_state_machine_cowbo.Service.State.{ServiceState, ConnectionId}
use rust_state_machine_cowbo.Service.Methods.{register, disconnect, request_mode, refresh_health}
use rust_state_machine_cowbo.Server.{
  ServerError, transport, service, SessionEvent, outgoing, incoming, session_step,
}

pub record SamServer (Sender : Type 0) : Type 0 where
  pub endpoint : LocalEndpoint
  pub service_state : ServiceState Sender
  pub registration_timeout : Duration

-- A duration in nanoseconds.
abbrev pub new : {Sender : Type 0} → LocalEndpoint → ServiceState Sender → SamServer Sender
new endpoint s = record {
  endpoint = endpoint;
  service_state = s;
  registration_timeout = 5 * 1000000000;
}

-- The first message is awaited, the session runs, the session has ended with a result and the clean-up
-- comes next, or the task has returned.
pub data Task (C E : Type 0) : Type 0 where
  awaiting : (connection : C) → Task C E
  active : (connection : C) (application : ApplicationId) (id : ConnectionId) → Task C E
  leaving :
      (connection : C) (application : ApplicationId) (id : ConnectionId)
      (session_result : Result (Unit {0}) (ServerError E))
      → Task C E
  finished : (connection : C) (result : Result (Unit {0}) (ServerError E)) → Task C E

-- What the task of a connection goes on with.
pub data TaskEvent (E Sender : Type 0) : Type 0 where
  begins :
      (first : Option (Result ApplicationToSam (TransportError E))) (outbound : Sender)
      (now : Instant)
      → TaskEvent E Sender
  sends : (message : Option SamToApplication) → TaskEvent E Sender
  receives :
      (message : Result ApplicationToSam (TransportError E)) (now : Instant) → TaskEvent E Sender
  cleans_up : (now : Instant) → TaskEvent E Sender

-- An accepted connection or the failure of `accept`, the timer of the health check, a step of one of
-- the connections' tasks, which are numbered as they came, or a request by the operator.
pub data ServerEvent (C E Sender : Type 0) : Type 0 where
  accepts : (accepted : Result C (TransportError E)) → ServerEvent C E Sender
  ticks : (now : Instant) → ServerEvent C E Sender
  continues : (task : ℕ) (event : TaskEvent E Sender) → ServerEvent C E Sender
  operates : (target : SystemMode) → ServerEvent C E Sender

-- `returned` is what `run` has returned, if it has; the tasks go on then.
pub record Program (C E Sender : Type 0) : Type 0 where
  pub state : ServiceState Sender
  pub tasks : List (Task C E)
  pub returned : Option (Result (Unit {0}) (ServerError E))

module _ {Sender C E : Type 0} (try_send : Sender → SamToApplication → Option Sender)
    (send : C → SamToApplication → C × Result (Unit {0}) (TransportError E)) where
  abbrev pub rejected : ServiceState Sender → C → String → ServiceState Sender × Task C E
  rejected s c reason =
      let written = send c (register_rejected protocol_version reason) in
      (s, finished written.0 (map_err transport written.1))

  -- `serve_connection` up to the session.
  unfoldable pub begin :
      ServiceState Sender
      → C
      → Option (Result ApplicationToSam (TransportError E))
      → Sender
      → Instant
      → ServiceState Sender × Task C E
  begin s c none outbound now = (s, finished c (ok tt))
  begin s c (some (err e)) outbound now = (s, finished c (err (transport e)))
  begin s c (some (ok (ApplicationToSam.register application version))) outbound now =
      let registered = register try_send s application outbound now in
      if not (version == protocol_version)
      then rejected s c ("unsupported protocol version " <> display version)
      else elim registered.1 [
        | err e ↦ (registered.0, finished c (err (service e)))
        | ok id ↦ (registered.0, active c application id)
      ]
  begin s c (some (ok message)) outbound now = rejected s c "first message must be Register"

  -- One turn of the session's loop.
  unfoldable pub turn :
      ServiceState Sender
      → C
      → ApplicationId
      → ConnectionId
      → SessionEvent E Sender
      → ServiceState Sender × Task C E
  turn s c application id event =
      let done = session_step try_send send s c application id event in
      elim done.1 [
        | none ↦ (done.0.0, active done.0.1 application id)
        | some result ↦ (done.0.0, leaving done.0.1 application id result)
      ]

  -- The end of `serve_connection`.
  unfoldable pub clean_up :
      ServiceState Sender
      → C
      → ApplicationId
      → ConnectionId
      → Result (Unit {0}) (ServerError E)
      → Instant
      → ServiceState Sender × Task C E
  clean_up s c application id session_result now =
      let gone = disconnect try_send s application id now in
      (gone.0, finished c (elim session_result [ err e ↦ err e | ok _ ↦ map_err service gone.1 ]))

  -- A task takes only the events that it waits for.
  unfoldable pub task_step :
      ServiceState Sender → Task C E → TaskEvent E Sender → ServiceState Sender × Task C E
  task_step s (awaiting c) (begins first outbound now) = begin s c first outbound now
  task_step s (active c application id) (sends message) = turn s c application id (outgoing message)
  task_step s (active c application id) (receives message now) =
      turn s c application id (incoming message now)
  task_step s (leaving c application id result) (cleans_up now) =
      clean_up s c application id result now
  task_step s task event = (s, task)

  unfoldable pub step_task :
      ServiceState Sender
      → List (Task C E)
      → ℕ
      → TaskEvent E Sender
      → ServiceState Sender × List (Task C E)
  step_task s [] n event = (s, [])
  step_task s (task ∷ tasks) zero event =
      let done = task_step s task event in (done.0, done.1 ∷ tasks)
  step_task s (task ∷ tasks) (suc n) event =
      let done = step_task s tasks n event in (done.0, task ∷ done.1)

  unfoldable pub server_step : Program C E Sender → ServerEvent C E Sender → Program C E Sender
  server_step p (accepts accepted) = elim p.returned [
    | some result ↦ p
    | none ↦ elim accepted [
      | ok c ↦ record p { tasks = p.tasks ++ awaiting c ∷ [] }
      | err e ↦ record p { returned = some (err (transport e)) }
    ]
  ]
  server_step p (ticks now) = record p { state = refresh_health try_send p.state now }
  server_step p (continues task event) =
      let done = step_task p.state p.tasks task event in record p { state = done.0; tasks = done.1 }
  server_step p (operates target) = record p { state = (request_mode try_send p.state target).0 }

  unfoldable pub run_loop : Program C E Sender → List (ServerEvent C E Sender) → Program C E Sender
  run_loop p [] = p
  run_loop p (event ∷ events) = run_loop (server_step p event) events

  -- `run`: the endpoint is bound, and the tasks start.
  unfoldable pub run :
      {Listener : Type 0}
      → SamServer Sender
      → Result Listener (TransportError E)
      → List (ServerEvent C E Sender)
      → Program C E Sender
  run server (err e) events = record {
    state = server.service_state;
    tasks = [];
    returned = some (err (transport e));
  }
  run server (ok listener) events =
      run_loop (record { state = server.service_state; tasks = []; returned = none }) events
