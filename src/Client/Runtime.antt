-- ===== src/Client/Runtime.antt =====
-- crates/sam-client/src/runtime.rs: `ApplicationRuntime`. What the socket, the timers and the task
-- that reads bring to a session is a list of events; the sleeping between sessions is left out.
use rust_state_machine_cowbo.Prelude.{
  ℕ, Bool, true, false, not, String, List, [], ◌∷◌, Option, none, some, Result, ok, err, map_err,
  ◌==◌, if◌then◌else◌, question, nat_eq,
}
use rust_state_machine_cowbo.Protocol.{
  SystemMode, ApplicationId, TransitionId, ApplicationToSam, SamToApplication, register_accepted,
  register_rejected, prepare_mode, commit_mode, abort_mode, state_broadcast, protocol_version,
  mode_eq,
}
use rust_state_machine_cowbo.Transport.Error.{TransportError}
use rust_state_machine_cowbo.Client.Handler.{ModeHandler}
use rust_state_machine_cowbo.Client.Messages

pub data RuntimeError (E : Type 0) : Type 0 where
  transport : (error : TransportError E) → RuntimeError E
  registration_timeout : RuntimeError E
  registration_rejected : (supported_version : ℕ) (reason : String) → RuntimeError E
  protocol_version_mismatch : (received supported : ℕ) → RuntimeError E
  unexpected_registration_response : (response : SamToApplication) → RuntimeError E
  connection_closed : RuntimeError E
  commit_failed : (reason : String) → RuntimeError E
  initial_synchronization_failed : (mode : SystemMode) (reason : String) → RuntimeError E

-- What `select!` in the session picks: the timer, or what the reading task has queued. The queue
-- closes when that task has ended.
pub data LoopEvent (E : Type 0) : Type 0 where
  heartbeat_tick : LoopEvent E
  incoming : (message : Result SamToApplication (TransportError E)) → LoopEvent E
  inbound_closed : LoopEvent E

-- What one session meets: the connection or its failure, the first message, or nothing before the
-- timeout, and then the events.
pub record Attempt (W E : Type 0) : Type 0 where
  pub connected : Result W (TransportError E)
  pub registration : Option (Result SamToApplication (TransportError E))
  pub events : List (LoopEvent E)

-- The errors after which `run` returns.
abbrev pub is_permanent : {E : Type 0} → RuntimeError E → Bool
is_permanent (registration_rejected supported_version reason) = true
is_permanent (protocol_version_mismatch received supported) = true
is_permanent (initial_synchronization_failed mode reason) = true
is_permanent _ = false

module _ {H W E : Type 0} (handler : ModeHandler H)
    (send : W → ApplicationToSam → W × Result (Unit {0}) (TransportError E))
    (application : ApplicationId) where
  -- The result of a send, next to the handler.
  abbrev pub sent :
      H → W × Result (Unit {0}) (TransportError E) → (W × H) × Result (Unit {0}) (RuntimeError E)
  sent h (w, result) = ((w, h), map_err transport result)

  unfoldable pub on_prepare :
      W → H → TransitionId → SystemMode → (W × H) × Result (Unit {0}) (RuntimeError E)
  on_prepare w h transition_id requested_mode =
      let prepared = handler.prepare_mode h requested_mode in
      elim prepared.1 [
        | ok _ ↦ sent prepared.0 (Messages.mode_ready send application w transition_id)
        | err reason ↦
            sent prepared.0 (Messages.mode_rejected send application w transition_id reason)
      ]

  unfoldable pub on_commit :
      W → H → TransitionId → SystemMode → (W × H) × Result (Unit {0}) (RuntimeError E)
  on_commit w h transition_id mode =
      let committed = handler.commit_mode h mode in
      elim committed.1 [
        | ok _ ↦ sent committed.0 (Messages.mode_committed send application w transition_id mode)
        | err reason ↦ ((w, committed.0), err (commit_failed reason))
      ]

  unfoldable pub on_message :
      W → H → SamToApplication → (W × H) × Result (Unit {0}) (RuntimeError E)
  on_message w h (prepare_mode transition_id requested_mode) =
      on_prepare w h transition_id requested_mode
  on_message w h (commit_mode transition_id mode) = on_commit w h transition_id mode
  on_message w h (abort_mode transition_id) = ((w, handler.abort_mode h transition_id), ok tt)
  on_message w h (state_broadcast mode reported) =
      ((w, handler.system_state_changed h mode reported), ok tt)
  on_message w h message = ((w, h), err (unexpected_registration_response message))

  unfoldable pub on_event : W → H → LoopEvent E → (W × H) × Result (Unit {0}) (RuntimeError E)
  on_event w h heartbeat_tick =
      sent h (Messages.heartbeat send application w (handler.health h) (handler.current_mode h))
  on_event w h (incoming (ok message)) = on_message w h message
  on_event w h (incoming (err e)) = ((w, h), err (transport e))
  on_event w h inbound_closed = ((w, h), err connection_closed)

  -- The loop of a session, which ends by an error or goes on.
  unfoldable pub session_loop : W → H → List (LoopEvent E) → (W × H) × Option (RuntimeError E)
  session_loop w h [] = ((w, h), none)
  session_loop w h (event ∷ events) =
      let done = on_event w h event in
      let rest = session_loop done.0.0 done.0.1 events in
      elim done.1 [ ok _ ↦ rest | err e ↦ (done.0, some e) ]

  -- The answer to `Register`.
  unfoldable pub on_registration : H → SamToApplication → H × Result (Unit {0}) (RuntimeError E)
  on_registration h (register_accepted version current_mode system_health) =
      if not (version == protocol_version)
      then (h, err (protocol_version_mismatch version protocol_version))
      else question (λ e. e)
          (if handler.current_mode h == current_mode
            then (h, ok tt)
            else question (initial_synchronization_failed current_mode)
                (handler.synchronize_mode h current_mode) λ h _. (h, ok tt))
          λ h _. (handler.system_state_changed h current_mode system_health, ok tt)
  on_registration h (register_rejected supported_protocol_version reason) =
      (h, err (registration_rejected supported_protocol_version reason))
  on_registration h other = (h, err (unexpected_registration_response other))

  unfoldable pub run_session : H → Attempt W E → H × Option (RuntimeError E)
  run_session h attempt = elim attempt.connected [
    | err e ↦ (h, some (transport e))
    | ok w ↦
        let registered = Messages.register send application w in
        elim registered.1 [
          | err e ↦ (h, some (transport e))
          | ok _ ↦ elim attempt.registration [
            | none ↦ (h, some registration_timeout)
            | some (err e) ↦ (h, some (transport e))
            | some (ok message) ↦
                let joined = on_registration h message in
                elim joined.1 [
                  | err e ↦ (joined.0, some e)
                  | ok _ ↦
                      let looped = session_loop registered.0 joined.0 attempt.events in
                      (looped.0.1, looped.1)
                ]
          ]
        ]
  ]

  -- The sessions one after the other; a session without an end keeps the runtime.
  unfoldable pub run : H → List (Attempt W E) → H × Option (RuntimeError E)
  run h [] = (h, none)
  run h (attempt ∷ attempts) =
      let session = run_session h attempt in
      let rest = run session.0 attempts in
      elim session.1 [
        | none ↦ (session.0, none)
        | some e ↦ if is_permanent e then (session.0, some e) else rest
      ]
