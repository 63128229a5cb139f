-- ===== src/Server.antt =====
-- crates/sam-service/src/server.rs: what becomes of one accepted connection. What the socket, the
-- queue and the other tasks bring is a list of events; binding, accepting and spawning is left out.
use rust_state_machine_cowbo.Prelude.{
  ℕ, String, List, [], ◌∷◌, Option, none, some, Result, ok, err, map_err, not, ◌==◌, ◌<>◌,
  if◌then◌else◌, display, nat_eq,
}
use rust_state_machine_cowbo.Protocol.{
  ApplicationId, ApplicationToSam, SamToApplication, register_rejected, protocol_version,
}
use rust_state_machine_cowbo.Core.Registry.{Instant}
use rust_state_machine_cowbo.Transport.Error.{TransportError, is_disconnect}
use rust_state_machine_cowbo.Service.State.{ServiceState, ServiceError, ConnectionId}
use rust_state_machine_cowbo.Service.Methods.{register, disconnect}
use rust_state_machine_cowbo.Service.Messages.{handle_message}
use rust_state_machine_cowbo.Service.Calls.{Call, step, run}
pub mod Refinement
pub mod Admission
pub mod Program
pub mod Hands
pub mod Served
pub mod Interleaving
mod Tests

pub data ServerError (E : Type 0) : Type 0 where
  transport : (error : TransportError E) → ServerError E
  service : (error : ServiceError) → ServerError E

-- What `select!` in a session picks: the queue of the client, which closes when the service drops the
-- sender, or the socket; and between two picks another task may call the service.
pub data SessionEvent (E Sender : Type 0) : Type 0 where
  outgoing : (message : Option SamToApplication) → SessionEvent E Sender
  incoming :
      (message : Result ApplicationToSam (TransportError E)) (now : Instant) → SessionEvent E Sender
  meanwhile : (call : Call Sender) → SessionEvent E Sender

module _ {Sender C E : Type 0} (try_send : Sender → SamToApplication → Option Sender)
    (send : C → SamToApplication → C × Result (Unit {0}) (TransportError E)) where
  -- The session so far, which goes on, or has returned.
  abbrev pub Outcome : Type 0
  Outcome = (ServiceState Sender × C) × Option (Result (Unit {0}) (ServerError E))

  unfoldable pub session_step :
      ServiceState Sender → C → ApplicationId → ConnectionId → SessionEvent E Sender → Outcome
  session_step s c application connection_id (outgoing none) = ((s, c), some (ok tt))
  session_step s c application connection_id (outgoing (some message)) =
      let written = send c message in
      elim written.1 [
        | ok _ ↦ ((s, written.0), none)
        | err e ↦ ((s, written.0), some (err (transport e)))
      ]
  session_step s c application connection_id (incoming (ok message) now) =
      let handled = handle_message try_send s application connection_id message now in
      elim handled.1 [
        | ok _ ↦ ((handled.0, c), none)
        | err e ↦ ((handled.0, c), some (err (service e)))
      ]
  session_step s c application connection_id (incoming (err e) now) =
      if is_disconnect e then ((s, c), some (ok tt)) else ((s, c), some (err (transport e)))
  session_step s c application connection_id (meanwhile call) = ((step try_send s call, c), none)

  unfoldable pub run_registered_session :
      ServiceState Sender
      → C
      → ApplicationId
      → ConnectionId
      → List (SessionEvent E Sender)
      → Outcome
  run_registered_session s c application connection_id [] = ((s, c), none)
  run_registered_session s c application connection_id (event ∷ events) =
      let done = session_step s c application connection_id event in
      let rest = run_registered_session done.0.0 done.0.1 application connection_id events in
      elim done.1 [ none ↦ rest | some result ↦ (done.0, some result) ]

  -- `connection.send(RegisterRejected).await?`, after which the connection is over.
  unfoldable pub reject : ServiceState Sender → C → String → Outcome
  reject s c reason =
      let written = send c (register_rejected protocol_version reason) in
      ((s, written.0), some (map_err transport written.1))

  -- The session of an application that may register, and the clean-up behind it, before which other tasks
  -- may call the service as well.
  unfoldable pub serve_registered :
      ServiceState Sender
      → C
      → ApplicationId
      → Sender
      → Instant
      → List (SessionEvent E Sender)
      → List (Call Sender)
      → Instant
      → Outcome
  serve_registered s c application outbound now events between later =
      let registered = register try_send s application outbound now in
      elim registered.1 [
        | err e ↦ ((registered.0, c), some (err (service e)))
        | ok connection_id ↦
            let session = run_registered_session registered.0 c application connection_id events in
            elim session.1 [
              | none ↦ session
              | some session_result ↦
                  let left = run try_send session.0.0 between in
                  let gone = disconnect try_send left application connection_id later in
                  (
                    (gone.0, session.0.1),
                    some (elim session_result [ err e ↦ err e | ok _ ↦ map_err service gone.1 ]),
                  )
            ]
      ]

  -- The first message is missing after the timeout, or it is the failure of the socket, or a message.
  unfoldable pub serve_connection :
      ServiceState Sender
      → C
      → Option (Result ApplicationToSam (TransportError E))
      → Sender
      → Instant
      → List (SessionEvent E Sender)
      → List (Call Sender)
      → Instant
      → Outcome
  serve_connection s c none outbound now events between later = ((s, c), some (ok tt))
  serve_connection s c (some (err e)) outbound now events between later =
      ((s, c), some (err (transport e)))
  serve_connection s c (some (ok (ApplicationToSam.register application version))) outbound now
        events between later =
      let served = serve_registered s c application outbound now events between later in
      if not (version == protocol_version)
      then reject s c ("unsupported protocol version " <> display version)
      else served
  serve_connection s c (some (ok message)) outbound now events between later =
      reject s c "first message must be Register"
