-- ===== src/Core/Mode/Authority.antt =====
-- Only the event `TransitionComplete` changes the current mode.
use rust_state_machine_cowbo.Prelude.{
  ℕ, String, List, Option, some, Result, ok, ◌≡◌, refl, arith, string_eq, nat_eq,
}
use rust_state_machine_cowbo.Protocol.{SystemMode, ApplicationId, TransitionId, mode_eq}
use rust_state_machine_cowbo.Core.Mode.{
  ModeManagerState, stable, preparing, committing, ModeManager, ModeEvent, transition_complete,
  ModeError, request_transition, application_ready, application_rejected, application_committed,
  current_mode,
}
use rust_state_machine_cowbo.Core.Mode.Responses.{manager}

-- The mode that a result of `application_committed` announces.
abbrev pub announced_mode : SystemMode → Result (Option ModeEvent) ModeError → SystemMode
announced_mode old (ok (some (transition_complete i mode))) = mode
announced_mode old _ = old

committed-current_mode :
    (s : ModeManagerState) (n : ℕ) (a : ApplicationId) (i : TransitionId) (mode : SystemMode)
    → let r = application_committed (manager s n) a i mode in
      current_mode r.0 ≡ announced_mode (current_mode (manager s n)) r.1
unfolding application_committed
committed-current_mode (stable m) n a i mode = refl
committed-current_mode (preparing j c t w r) n a i mode = refl
committed-current_mode (committing j p t w d) n a i mode = ground arith

ready-current_mode :
    (s : ModeManagerState) (n : ℕ) (a : ApplicationId) (i : TransitionId)
    → current_mode (application_ready (manager s n) a i).0 ≡ current_mode (manager s n)
unfolding application_ready
ready-current_mode (stable m) n a i = refl
ready-current_mode (preparing j c t w r) n a i = ground arith
ready-current_mode (committing j p t w d) n a i = refl

rejected-current_mode :
    (s : ModeManagerState) (n : ℕ) (a : ApplicationId) (i : TransitionId) (reason : String)
    → current_mode (application_rejected (manager s n) a i reason).0 ≡ current_mode (manager s n)
unfolding application_rejected
rejected-current_mode (stable m) n a i reason = refl
rejected-current_mode (preparing j c t w r) n a i reason = ground arith
rejected-current_mode (committing j p t w d) n a i reason = refl

request-current_mode :
    (s : ModeManagerState) (n : ℕ) (target : SystemMode) (ps : List ApplicationId)
    → current_mode (request_transition (manager s n) target ps).0 ≡ current_mode (manager s n)
unfolding request_transition
request-current_mode (stable m) n target ps = ground arith
request-current_mode (preparing j c t w r) n target ps = refl
request-current_mode (committing j p t w d) n target ps = refl

-- A request, an approval and a rejection leave the current mode, and so does a confirmation unless
-- its result is `TransitionComplete`: then the current mode is the one that the event names.
pub current_mode_cases :
    (m : ModeManager) (a : ApplicationId) (i : TransitionId) (mode : SystemMode) (reason : String)
    (ps : List ApplicationId)
    → (current_mode (request_transition m mode ps).0 ≡ current_mode m)
      × (current_mode (application_ready m a i).0 ≡ current_mode m)
      × (current_mode (application_rejected m a i reason).0 ≡ current_mode m)
      × (current_mode (application_committed m a i mode).0
          ≡ announced_mode (current_mode m) (application_committed m a i mode).1)
current_mode_cases m a i mode reason ps = (
  request-current_mode m.state m.next_transition_id mode ps,
  ready-current_mode m.state m.next_transition_id a i,
  rejected-current_mode m.state m.next_transition_id a i reason,
  committed-current_mode m.state m.next_transition_id a i mode,
)
