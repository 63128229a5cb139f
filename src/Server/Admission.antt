-- ===== src/Server/Admission.antt =====
-- Who is let in, and what is left when a session is over.
use rust_state_machine_cowbo.Prelude.{
  String, Bool, false, List, Option, none, some, Result, ok, err, ◌==◌, nat_eq, string_eq, ◌≡◌,
  refl, ◌⊎◌, inl, inr, Option-cases, arith,
}
use text.Mathlib.TextEquality.{eq_iff}
use rust_state_machine_cowbo.HashMap.{get-remove}
use rust_state_machine_cowbo.Protocol.{
  ApplicationId, ApplicationToSam, SamToApplication, register_rejected, protocol_version,
}
use rust_state_machine_cowbo.Core.Registry.{Instant}
use rust_state_machine_cowbo.Transport.Error.{TransportError}
use rust_state_machine_cowbo.Service.State.{
  ServiceState, ConnectionId, verify_connection, stale_connection,
}
use rust_state_machine_cowbo.Service.Methods.{register, disconnect}
use rust_state_machine_cowbo.Service.Delivery.{get-deliver_all}
use rust_state_machine_cowbo.Service.Calls.{Call, run}
use rust_state_machine_cowbo.Server.{
  SessionEvent, ServerError, run_registered_session, reject, serve_registered, serve_connection,
}

-- The first message is a `Register` of this version of the protocol.
abbrev pub admits : {E : Type 0} → Option (Result ApplicationToSam (TransportError E)) → Bool
admits (some (ok (ApplicationToSam.register application version))) = version == protocol_version
admits _ = false

module _ {Sender C E : Type 0} (try_send : Sender → SamToApplication → Option Sender)
    (send : C → SamToApplication → C × Result (Unit {0}) (TransportError E)) where
  -- A connection that does not start by a `Register` of this version never reaches the service, and
  -- is over after one `RegisterRejected` at most.
  pub refused_connection_unchanged :
      (s : ServiceState Sender) (c : C)
      (first : Option (Result ApplicationToSam (TransportError E))) (outbound : Sender)
      (now later : Instant) (events : List (SessionEvent E Sender)) (between : List (Call Sender))
      → admits first ≡ false
      → let served = serve_connection try_send send s c first outbound now events between later in
        (served.0.0 ≡ s)
        × ((served.0.1 ≡ c)
            ⊎ ((reason : String) × (served.0.1
                  ≡ (send c (register_rejected protocol_version reason)).0)))
        × ((result : Result (Unit {0}) (ServerError E)) × (served.1 ≡ some result))
  unfolding serve_connection reject
  refused_connection_unchanged s c none outbound now later events between h =
      (refl, inl refl, (ok tt, refl))
  refused_connection_unchanged s c (some (err e)) outbound now later events between h =
      (refl, inl refl, (_, refl))
  refused_connection_unchanged s c (some (ok (ApplicationToSam.register a v))) outbound now later
        events between h =
      rw h (refl, inr (_, refl), (_, refl))
  refused_connection_unchanged s c (some (ok (ApplicationToSam.heartbeat a v m))) outbound now later
        events between h =
      (refl, inr (_, refl), (_, refl))
  refused_connection_unchanged s c (some (ok (ApplicationToSam.mode_ready a i))) outbound now later
        events between h =
      (refl, inr (_, refl), (_, refl))
  refused_connection_unchanged s c (some (ok (ApplicationToSam.mode_rejected a i reason))) outbound
        now later events between h =
      (refl, inr (_, refl), (_, refl))
  refused_connection_unchanged s c (some (ok (ApplicationToSam.mode_committed a i m))) outbound now
        later events between h =
      (refl, inr (_, refl), (_, refl))

  disconnect_stale :
      (s : ServiceState Sender) (a : ApplicationId) (id : ConnectionId) (now : Instant)
      → verify_connection (disconnect try_send s a id now).0 a id ≡ err (stale_connection a)
  unfolding disconnect verify_connection
  disconnect_stale s a id now = grind (arith, get-deliver_all try_send, get-remove, eq_iff a a)

  -- However the session of a registered application ends, by an error or not, and whatever other
  -- tasks have called, its connection has no say any more.
  pub ended_session_is_disconnected :
      (s : ServiceState Sender) (c : C) (a : ApplicationId) (outbound : Sender)
      (now later : Instant) (events : List (SessionEvent E Sender)) (between : List (Call Sender))
      (result : Result (Unit {0}) (ServerError E)) {id : ConnectionId}
      → (register try_send s a outbound now).1 ≡ ok id
      → (serve_connection try_send send s c
          (some (ok (ApplicationToSam.register a protocol_version)))
          outbound
          now
          events
          between
          later).1
        ≡ some result
      → verify_connection
          (serve_connection try_send send s c
            (some (ok (ApplicationToSam.register a protocol_version)))
            outbound
            now
            events
            between
            later).0.0
          a
          id
        ≡ err (stale_connection a)
  unfolding serve_connection serve_registered
  ended_session_is_disconnected s c a outbound now later events between result {id} h e =
      let session =
        run_registered_session try_send send (register try_send s a outbound now).0 c a id events in
      elim (Option-cases session.1) [
        | inl q ↦ ground (arith, h, q)
        | inr (r, q) ↦
            ground (arith, h, q, disconnect_stale (run try_send session.0.0 between) a id later)
      ]
