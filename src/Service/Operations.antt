-- ===== src/Service/Operations.antt =====
-- Each call is at most one operation on the mode manager, made for the application that sent it.
use rust_state_machine_cowbo.Prelude.{
  String, Option, none, some, ok, err, ◌≡◌, refl, ◌⊎◌, inl, inr, arith, string_eq,
}
use rust_state_machine_cowbo.HashMap
use rust_state_machine_cowbo.Protocol.{
  SystemMode, HealthState, ApplicationId, ApplicationToSam, SamToApplication, TransitionId,
}
use rust_state_machine_cowbo.Core.Mode.{
  ModeManager, Operation, request, ready, rejected, committed, ModeEvent, ModeError,
}
use rust_state_machine_cowbo.Core.Mode
use rust_state_machine_cowbo.Core.Registry.{Instant}
use rust_state_machine_cowbo.Service.State.{
  ServiceState, ConnectionId, verify_connection, stale_connection,
}
use rust_state_machine_cowbo.Service.Messages.{
  handle_message, dispatch, on_heartbeat, on_mode_ready, on_mode_rejected, on_mode_committed,
}
use rust_state_machine_cowbo.Service.Calls.{
  Call, registers, disconnects, messages, requests, refreshes, step,
}

-- The operation on the modes that a message asks for.
abbrev pub message_operation : ApplicationToSam → Option Operation
message_operation (ApplicationToSam.register _ _) = none
message_operation (ApplicationToSam.heartbeat _ _ _) = none
message_operation (ApplicationToSam.mode_ready a i) = some (ready a i)
message_operation (ApplicationToSam.mode_rejected a i reason) = some (rejected a i reason)
message_operation (ApplicationToSam.mode_committed a i mode) = some (committed a i mode)

-- The operation on the modes that a call may make.
abbrev pub call_operation : {Sender : Type 0} → ServiceState Sender → Call Sender → Option Operation
call_operation s (registers _ _ _) = none
call_operation s (disconnects _ _ _) = none
call_operation s (messages _ _ m _) = message_operation m
call_operation s (requests target) = some (request target (HashMap.keys s.clients))
call_operation s (refreshes _) = none

-- The manager is left alone, or makes the one operation.
abbrev pub Performs : ModeManager → Option Operation → ModeManager → Type 0
Performs m none m' = m' ≡ m
Performs m (some o) m' = (m' ≡ m) ⊎ (m' ≡ Mode.step m o)

Performs-none : {m m' : ModeManager} (o : Option Operation) → m' ≡ m → Performs m o m'
Performs-none none e = e
Performs-none (some o) e = inl e

module _ {Sender : Type 0} (try_send : Sender → SamToApplication → Option Sender) where
  on_mode_ready-modes :
      (s : ServiceState Sender) (r a : ApplicationId) (i : TransitionId)
      → Performs s.modes (some (ready a i)) (on_mode_ready try_send s r a i).0.modes
  unfolding on_mode_ready Mode.step
  on_mode_ready-modes s r a i = ground arith

  on_mode_rejected-modes :
      (s : ServiceState Sender) (r a : ApplicationId) (i : TransitionId) (reason : String)
      → Performs s.modes
          (some (rejected a i reason))
          (on_mode_rejected try_send s r a i reason).0.modes
  unfolding on_mode_rejected Mode.step
  on_mode_rejected-modes s r a i reason = ground arith

  on_mode_committed-modes :
      (s : ServiceState Sender) (r a : ApplicationId) (i : TransitionId) (mode : SystemMode)
      (now : Instant)
      → Performs s.modes
          (some (committed a i mode))
          (on_mode_committed try_send s r a i mode now).0.modes
  unfolding on_mode_committed Mode.step
  on_mode_committed-modes s r a i mode now = ground arith

  on_heartbeat-modes :
      (s : ServiceState Sender) (r a : ApplicationId) (h : HealthState) (mode : SystemMode)
      (now : Instant)
      → (on_heartbeat try_send s r a h mode now).0.modes ≡ s.modes
  unfolding on_heartbeat
  on_heartbeat-modes s r a h mode now = ground arith

  dispatch-modes :
      (s : ServiceState Sender) (r : ApplicationId) (m : ApplicationToSam) (now : Instant)
      → Performs s.modes (message_operation m) (dispatch try_send s r m now).0.modes
  unfolding dispatch
  dispatch-modes s r (ApplicationToSam.register a version) now = refl
  dispatch-modes s r (ApplicationToSam.heartbeat a h mode) now = on_heartbeat-modes s r a h mode now
  dispatch-modes s r (ApplicationToSam.mode_ready a i) now = on_mode_ready-modes s r a i
  dispatch-modes s r (ApplicationToSam.mode_rejected a i reason) now =
      on_mode_rejected-modes s r a i reason
  dispatch-modes s r (ApplicationToSam.mode_committed a i mode) now =
      on_mode_committed-modes s r a i mode now

  -- A message is refused, or handled.
  pub handle_message_cases :
      (s : ServiceState Sender) (a : ApplicationId) (id : ConnectionId) (m : ApplicationToSam)
      (now : Instant)
      → ((verify_connection s a id ≡ err (stale_connection a))
          × (handle_message try_send s a id m now ≡ (s, err (stale_connection a))))
        ⊎ ((verify_connection s a id ≡ ok tt)
            × (handle_message try_send s a id m now ≡ dispatch try_send s a m now))
  unfolding handle_message verify_connection
  handle_message_cases s a id m now = ground arith

  -- So what holds before a message holds after it, if handling it keeps it.
  pub message_rule :
      (P : ServiceState Sender → Type 0) (s : ServiceState Sender) (a : ApplicationId)
      (id : ConnectionId) (m : ApplicationToSam) (now : Instant)
      → P s
      → (verify_connection s a id ≡ ok tt → P (dispatch try_send s a m now).0)
      → P (handle_message try_send s a id m now).0
  message_rule P s a id m now refused handled = elim (handle_message_cases s a id m now) [
    | inl (_, e) ↦ rw e refused
    | inr (active, e) ↦ rw e (handled active)
  ]

  -- Each call makes at most its one operation on the mode manager.
  pub modes-step :
      (s : ServiceState Sender) (c : Call Sender)
      → Performs s.modes (call_operation s c) (step try_send s c).modes
  unfolding step
  modes-step s (registers a outbound now) = ground arith
  modes-step s (disconnects a id now) = ground arith
  modes-step s (messages a id m now) =
      message_rule (λ t. Performs s.modes (message_operation m) t.modes) s a id m now
        (Performs-none {m = s.modes} (message_operation m) refl) (λ _. dispatch-modes s a m now)
  modes-step s (requests target) = unfold Mode.step in ground arith
  modes-step s (refreshes now) = ground arith
