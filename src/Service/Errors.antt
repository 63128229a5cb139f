-- ===== src/Service/Errors.antt =====
-- Messages that the service refuses or ignores leave its state as it was.
use rust_state_machine_cowbo.Prelude.{
  true, [], Option, none, some, ok, err, ◌≡◌, refl, sym, ◌≢◌, ◌⊎◌, inl, inr, arith, string_eq,
  nat_eq, Result-cases, ap, ◌∙◌,
}
use text.Mathlib.TextEquality.{eq_iff}
use rust_state_machine_cowbo.HashMap.{is_some}
use rust_state_machine_cowbo.Protocol.{ApplicationId, ApplicationToSam, SamToApplication}
use rust_state_machine_cowbo.Core.Mode.{
  ModeManager, ModeError, invalid_phase, stale_transition, unknown_participant,
}
use rust_state_machine_cowbo.Core.Mode
use rust_state_machine_cowbo.Core.Mode.Errors.{error_unchanged, error_of}
use rust_state_machine_cowbo.Core.Mode.Late.{
  IsLate, IsLateResponse, application_ready-IsLate, application_rejected-IsLate,
  application_committed-IsLate,
}
use rust_state_machine_cowbo.Core.Registry.{Instant, get}
use rust_state_machine_cowbo.Core.Registry.Laws.{set_mode-Updates, update_heartbeat-Updates}
use rust_state_machine_cowbo.Service.State.{
  ServiceState, ConnectionId, verify_connection, ServiceError, stale_connection,
  application_mismatch, duplicate_registration, is_late_transition_response,
}
use rust_state_machine_cowbo.Service.Messages.{
  handle_message, dispatch, on_heartbeat, on_mode_ready, on_mode_rejected, on_mode_committed,
}
use rust_state_machine_cowbo.Service.Operations.{handle_message_cases}
use rust_state_machine_cowbo.Service.Authority.{registered_of_active, IsConsistent}

-- The application that a message names as its sender.
abbrev pub message_application : ApplicationToSam → ApplicationId
message_application (ApplicationToSam.register a _) = a
message_application (ApplicationToSam.heartbeat a _ _) = a
message_application (ApplicationToSam.mode_ready a _) = a
message_application (ApplicationToSam.mode_rejected a _ _) = a
message_application (ApplicationToSam.mode_committed a _ _) = a

-- How a message of another application, or a second `Register`, is refused.
abbrev pub origin_error : ApplicationId → ApplicationToSam → ServiceError
origin_error r (ApplicationToSam.register _ _) = duplicate_registration
origin_error r m = application_mismatch r (message_application m)

module _ {Sender : Type 0} (try_send : Sender → SamToApplication → Option Sender) where
  dispatch_mismatch :
      (s : ServiceState Sender) (r : ApplicationId) (m : ApplicationToSam) (now : Instant)
      → r ≢ message_application m
      → dispatch try_send s r m now ≡ (s, err (origin_error r m))
  unfolding dispatch on_heartbeat on_mode_ready on_mode_rejected on_mode_committed
  dispatch_mismatch s r (ApplicationToSam.register a version) now n = refl
  dispatch_mismatch s r (ApplicationToSam.heartbeat a h mode) now n = ground (arith, eq_iff r a)
  dispatch_mismatch s r (ApplicationToSam.mode_ready a i) now n = ground (arith, eq_iff r a)
  dispatch_mismatch s r (ApplicationToSam.mode_rejected a i reason) now n =
      ground (arith, eq_iff r a)
  dispatch_mismatch s r (ApplicationToSam.mode_committed a i mode) now n =
      ground (arith, eq_iff r a)

  -- A connection cannot speak for another application: the state stays, and the message is refused as
  -- that of a stale connection, or else as a duplicate registration if it is a `Register`, and as that of
  -- another application, with both names, if it is any other message.
  pub impersonation_refused :
      (s : ServiceState Sender) (a : ApplicationId) (id : ConnectionId) (m : ApplicationToSam)
      (now : Instant)
      → a ≢ message_application m
      → (handle_message try_send s a id m now ≡ (s, err (stale_connection a)))
        ⊎ (handle_message try_send s a id m now ≡ (s, err (origin_error a m)))
  impersonation_refused s a id m now n = elim (handle_message_cases try_send s a id m now) [
    | inl (_, e) ↦ inl e
    | inr (_, e) ↦ inr (rw e (dispatch_mismatch s a m now n))
  ]

  dispatch_error :
      (s : ServiceState Sender) (r : ApplicationId) (m : ApplicationToSam) (now : Instant)
      (e : ServiceError)
      → is_some (get s.applications r) ≡ true
      → (dispatch try_send s r m now).1 ≡ err e
      → (dispatch try_send s r m now).0 ≡ s
  unfolding dispatch on_heartbeat on_mode_ready on_mode_rejected on_mode_committed
  dispatch_error s r (ApplicationToSam.register a version) now e k h = refl
  dispatch_error s r (ApplicationToSam.heartbeat a hl mode) now e k h =
      ground (arith, eq_iff r a, update_heartbeat-Updates hl mode now s.applications a a)
  dispatch_error s r (ApplicationToSam.mode_ready a i) now e k h =
      elim (Result-cases (Mode.application_ready s.modes a i).1) [
        | inl (_, q) ↦ ground (arith)
        | inr (x, q) ↦ ground (arith, (error_unchanged s.modes a i s.system.mode "" [] x).1 q)
      ]
  dispatch_error s r (ApplicationToSam.mode_rejected a i reason) now e k h =
      elim (Result-cases (Mode.application_rejected s.modes a i reason).1) [
        | inl (_, q) ↦ ground (arith)
        | inr (x, q) ↦ ground (arith, (error_unchanged s.modes a i s.system.mode reason [] x).2 q)
      ]
  dispatch_error s r (ApplicationToSam.mode_committed a i mode) now e k h =
      elim (Result-cases (Mode.application_committed s.modes a i mode).1) [
        | inl (_, q) ↦ ground (arith, eq_iff r a, set_mode-Updates mode s.applications a a)
        | inr (x, q) ↦ ground (
          arith,
          eq_iff r a,
          set_mode-Updates mode s.applications a a,
          (error_unchanged s.modes a i mode "" [] x).3 q,
        )
      ]

  -- In a consistent state, a message that is answered by any error has changed nothing: no handler
  -- fails half way.
  pub refused_message_unchanged :
      (s : ServiceState Sender) (a : ApplicationId) (id : ConnectionId) (m : ApplicationToSam)
      (now : Instant) (e : ServiceError)
      → IsConsistent s
      → (handle_message try_send s a id m now).1 ≡ err e
      → (handle_message try_send s a id m now).0 ≡ s
  refused_message_unchanged s a id m now e v h = elim (handle_message_cases try_send s a id m now) [
    | inl (_, q) ↦ ap (λ p. p.0) q
    | inr (active, q) ↦
        ap (λ p. p.0) q
        ∙ dispatch_error s a m now e (registered_of_active s a id v.present active)
            (sym (ap (λ p. p.1) q) ∙ h)
  ]

  -- The answer of the mode manager to a message that speaks of a transition.
  abbrev pub mode_answer : ServiceState Sender → ApplicationToSam → Option ModeError
  mode_answer s (ApplicationToSam.mode_ready a i) = error_of (Mode.application_ready s.modes a i).1
  mode_answer s (ApplicationToSam.mode_rejected a i reason) =
      error_of (Mode.application_rejected s.modes a i reason).1
  mode_answer s (ApplicationToSam.mode_committed a i mode) =
      error_of (Mode.application_committed s.modes a i mode).1
  mode_answer s _ = none

  is_late_transition_response_lem :
      (e : ModeError) → IsLate e → is_late_transition_response e ≡ true
  is_late_transition_response_lem e late = ground (arith, late)

  dispatch_late :
      (s : ServiceState Sender) (m : ApplicationToSam) (now : Instant) (e : ModeError)
      → mode_answer s m ≡ some e
      → is_late_transition_response e ≡ true
      → dispatch try_send s (message_application m) m now ≡ (s, ok tt)
  unfolding dispatch on_heartbeat on_mode_ready on_mode_rejected on_mode_committed
  dispatch_late s (ApplicationToSam.register a version) now e h l = cc
  dispatch_late s (ApplicationToSam.heartbeat a hl mode) now e h l = cc
  dispatch_late s (ApplicationToSam.mode_ready a i) now e h l =
      ground (arith, eq_iff a a, (error_unchanged s.modes a i s.system.mode "" [] e).1)
  dispatch_late s (ApplicationToSam.mode_rejected a i reason) now e h l =
      ground (arith, eq_iff a a, (error_unchanged s.modes a i s.system.mode reason [] e).2)
  dispatch_late s (ApplicationToSam.mode_committed a i mode) now e h l =
      ground (arith, eq_iff a a, (error_unchanged s.modes a i mode "" [] e).3)

  mode_answer-IsLate :
      (s : ServiceState Sender) (m : ApplicationToSam)
      → IsLateResponse m s.modes.state
      → (e : ModeError) × (mode_answer s m ≡ some e) × IsLate e
  mode_answer-IsLate s (ApplicationToSam.register a version) late = absurd late
  mode_answer-IsLate s (ApplicationToSam.heartbeat a hl mode) late = absurd late
  mode_answer-IsLate s (ApplicationToSam.mode_ready a i) late =
      application_ready-IsLate s.modes a i s.modes.state refl late
  mode_answer-IsLate s (ApplicationToSam.mode_rejected a i reason) late =
      application_rejected-IsLate s.modes a i reason s.modes.state refl late
  mode_answer-IsLate s (ApplicationToSam.mode_committed a i mode) late =
      application_committed-IsLate s.modes a i mode s.modes.state refl late

  -- A response on the current connection that the state of the transition does not wait for is accepted
  -- and changes nothing: one that belongs to another phase, one that names another transition, an
  -- approval or a confirmation of the transition's mode by an application that the phase does not wait
  -- for, and a rejection by an application that neither is waited for nor has approved.
  pub late_response_ignored :
      (s : ServiceState Sender) (id : ConnectionId) (m : ApplicationToSam) (now : Instant)
      → verify_connection s (message_application m) id ≡ ok tt
      → IsLateResponse m s.modes.state
      → handle_message try_send s (message_application m) id m now ≡ (s, ok tt)
  late_response_ignored s id m now active late =
      let (e, h, l) = mode_answer-IsLate s m late in
      elim (handle_message_cases try_send s (message_application m) id m now) [
        | inl (stale, _) ↦ cc
        | inr (_, q) ↦ q ∙ dispatch_late s m now e h (is_late_transition_response_lem e l)
      ]
