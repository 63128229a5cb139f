-- ===== src/Core/Mode.antt =====
-- crates/sam-core/src/mode.rs: the two rounds of consent by which the system changes its mode.
-- A method that takes `&mut self` returns the manager after it and its result.
pub mod Invariant
pub mod Confirming
pub mod Turning
pub mod Late
pub mod Consent
pub mod Stuck
pub mod Transitions
pub mod Completion
pub mod Authority
pub mod Errors
pub mod Responses
use rust_state_machine_cowbo.Prelude.{
  ℕ, ◌+◌, ◌%◌, ◌^◌, String, Bool, not, ◌||◌, Option, none, some, List, [], ◌∷◌, Result, ok, err,
  nat_eq, string_eq, ◌==◌, if◌then◌else◌, ◌<>◌, debug_str,
}
use rust_state_machine_cowbo.HashSet.{HashSet}
use rust_state_machine_cowbo.HashSet
use rust_state_machine_cowbo.Protocol.{SystemMode, TransitionId, ApplicationId, mode_eq}

pub data ModeManagerState : Type 0 where
  stable : (mode : SystemMode) → ModeManagerState
  preparing :
      (transition_id : TransitionId) (current_mode target_mode : SystemMode)
      (waiting_for ready : HashSet ApplicationId)
      → ModeManagerState
  committing :
      (transition_id : TransitionId) (previous_mode target_mode : SystemMode)
      (waiting_for committed : HashSet ApplicationId)
      → ModeManagerState

pub data ModeEvent : Type 0 where
  preparation_complete : (transition_id : TransitionId) (target_mode : SystemMode) → ModeEvent
  transition_complete : (transition_id : TransitionId) (mode : SystemMode) → ModeEvent
  transition_aborted :
      (transition_id : TransitionId) (rejected_by : ApplicationId) (reason : String) → ModeEvent

pub data ModeError : Type 0 where
  transition_in_progress already_in_mode no_participants stale_transition : ModeError
  unknown_participant : ApplicationId → ModeError
  invalid_phase wrong_committed_mode : ModeError

-- The `#[error]` texts.
unfoldable pub mode_error_text : ModeError → String
mode_error_text transition_in_progress = "a mode transition is already in progress"
mode_error_text already_in_mode = "target mode is already active"
mode_error_text no_participants = "no applications are available to approve the transition"
mode_error_text stale_transition = "response does not match the active transition"
mode_error_text (unknown_participant application) =
    "application is not participating in this transition: ApplicationId("
    <> debug_str application
    <> ")"
mode_error_text invalid_phase = "response is invalid during the current transition phase"
mode_error_text wrong_committed_mode = "committed mode does not match the requested mode"

pub record ModeManager : Type 0 where
  pub state : ModeManagerState
  pub next_transition_id : ℕ

-- `u64::wrapping_add`.
abbrev pub wrapping_add : ℕ → ℕ → ℕ
wrapping_add a b = (a + b) % 2 ^ 64

unfoldable pub new : SystemMode → ModeManager
new initial_mode = record { state = stable initial_mode; next_transition_id = 1 }

abbrev pub state_mode : ModeManagerState → SystemMode
state_mode (stable mode) = mode
state_mode (preparing _ current_mode _ _ _) = current_mode
state_mode (committing _ previous_mode _ _ _) = previous_mode

abbrev pub current_mode : ModeManager → SystemMode
current_mode m = state_mode m.state

-- `request_transition` once the mode is known to be stable.
begin_transition :
    ModeManager
    → SystemMode
    → SystemMode
    → List ApplicationId
    → ModeManager × Result TransitionId ModeError
begin_transition m current_mode target_mode participants =
    if current_mode == target_mode
    then (m, err already_in_mode)
    else if HashSet.is_empty waiting_for
    then (m, err no_participants)
    else (
      record m {
        state = preparing m.next_transition_id current_mode target_mode waiting_for [];
        next_transition_id = wrapping_add m.next_transition_id 1;
      },
      ok m.next_transition_id,
    )
  where
    waiting_for : HashSet ApplicationId
    waiting_for = HashSet.collect participants

unfoldable pub request_transition :
    ModeManager → SystemMode → List ApplicationId → ModeManager × Result TransitionId ModeError
unfolding begin_transition
request_transition m target_mode participants = elim m.state [
  | stable mode ↦ begin_transition m mode target_mode participants
  | _ ↦ (m, err transition_in_progress)
]

-- `application_ready` in the phase `Preparing`.
ready_while_preparing :
    ModeManager
    → ApplicationId
    → TransitionId
    → TransitionId
    → SystemMode
    → SystemMode
    → HashSet ApplicationId
    → HashSet ApplicationId
    → ModeManager × Result (Option ModeEvent) ModeError
ready_while_preparing m application response_id transition_id previous_mode target_mode waiting_for
      ready =
    if not (transition_id == response_id)
    then (m, err stale_transition)
    else if not (HashSet.contains application waiting_for)
    then (m, err (unknown_participant application))
    else if HashSet.is_empty still_waiting
    then (
      record m { state = committing transition_id previous_mode target_mode now_ready [] },
      ok (some (preparation_complete transition_id target_mode)),
    )
    else (
      record m {
        state = preparing transition_id previous_mode target_mode still_waiting now_ready;
      },
      ok none,
    )
  where
    still_waiting : HashSet ApplicationId
    still_waiting = HashSet.remove application waiting_for

    now_ready : HashSet ApplicationId
    now_ready = HashSet.insert application ready

unfoldable pub application_ready :
    ModeManager → ApplicationId → TransitionId → ModeManager × Result (Option ModeEvent) ModeError
unfolding ready_while_preparing
application_ready m application response_id = elim m.state [
  | preparing transition_id current_mode target_mode waiting_for ready ↦
      ready_while_preparing m application response_id transition_id current_mode target_mode
        waiting_for ready
  | _ ↦ (m, err invalid_phase)
]

unfoldable pub application_rejected :
    ModeManager → ApplicationId → TransitionId → String → ModeManager × Result ModeEvent ModeError
application_rejected m application response_id reason = elim m.state [
  | preparing transition_id current_mode target_mode waiting_for ready ↦
      if not (transition_id == response_id)
      then (m, err stale_transition)
      else if not (HashSet.contains application waiting_for || HashSet.contains application ready)
      then (m, err (unknown_participant application))
      else (
        record m { state = stable current_mode },
        ok (transition_aborted transition_id application reason),
      )
  | _ ↦ (m, err invalid_phase)
]

-- `application_committed` in the phase `Committing`.
committed_while_committing :
    ModeManager
    → ApplicationId
    → TransitionId
    → SystemMode
    → TransitionId
    → SystemMode
    → SystemMode
    → HashSet ApplicationId
    → HashSet ApplicationId
    → ModeManager × Result (Option ModeEvent) ModeError
committed_while_committing m application response_id committed_mode transition_id previous_mode
      target_mode waiting_for committed =
    if not (transition_id == response_id)
    then (m, err stale_transition)
    else if not (target_mode == committed_mode)
    then (m, err wrong_committed_mode)
    else if not (HashSet.contains application waiting_for)
    then (m, err (unknown_participant application))
    else if HashSet.is_empty still_waiting
    then (
      record m { state = stable target_mode },
      ok (some (transition_complete transition_id target_mode)),
    )
    else (
      record m {
        state =
            committing transition_id previous_mode target_mode still_waiting
              (HashSet.insert application committed);
      },
      ok none,
    )
  where
    still_waiting : HashSet ApplicationId
    still_waiting = HashSet.remove application waiting_for

unfoldable pub application_committed :
    ModeManager
    → ApplicationId
    → TransitionId
    → SystemMode
    → ModeManager × Result (Option ModeEvent) ModeError
unfolding committed_while_committing
application_committed m application response_id committed_mode = elim m.state [
  | committing transition_id previous_mode target_mode waiting_for committed ↦
      committed_while_committing m application response_id committed_mode transition_id
        previous_mode target_mode waiting_for committed
  | _ ↦ (m, err invalid_phase)
]

-- What an application, or the operator, may do to the manager.
pub data Operation : Type 0 where
  request : (target : SystemMode) (participants : List ApplicationId) → Operation
  ready : (application : ApplicationId) (id : TransitionId) → Operation
  rejected : (application : ApplicationId) (id : TransitionId) (reason : String) → Operation
  committed : (application : ApplicationId) (id : TransitionId) (mode : SystemMode) → Operation

unfoldable pub step : ModeManager → Operation → ModeManager
unfolding request_transition application_ready application_rejected application_committed
step m (request target participants) = (request_transition m target participants).0
step m (ready application id) = (application_ready m application id).0
step m (rejected application id reason) = (application_rejected m application id reason).0
step m (committed application id mode) = (application_committed m application id mode).0

unfoldable pub run : ModeManager → List Operation → ModeManager
run m [] = m
run m (o ∷ os) = run (step m o) os
