-- ===== src/Core/Mode/Errors.antt =====
-- An operation that the mode manager refuses leaves it as it was.
use rust_state_machine_cowbo.Prelude.{
  ℕ, String, List, [], Option, none, some, Result, ok, err, ◌≡◌, refl, arith, string_eq, nat_eq,
}
use rust_state_machine_cowbo.Protocol.{SystemMode, ApplicationId, TransitionId, mode_eq, startup}
use rust_state_machine_cowbo.Core.Mode.{
  ModeManagerState, stable, preparing, committing, ModeManager, ModeError, Operation, request,
  ready, rejected, committed, step, request_transition, application_ready, application_rejected,
  application_committed,
}
use rust_state_machine_cowbo.Core.Mode.Responses.{manager}

module _ (e : ModeError) where
  request_error :
      (s : ModeManagerState) (n : ℕ) (target : SystemMode) (ps : List ApplicationId)
      → (request_transition (manager s n) target ps).1 ≡ err e
      → (request_transition (manager s n) target ps).0 ≡ manager s n
  unfolding request_transition
  request_error (stable m) n target ps h = ground arith
  request_error (preparing j c t w r) n target ps h = refl
  request_error (committing j p t w d) n target ps h = refl

  ready_error :
      (s : ModeManagerState) (n : ℕ) (a : ApplicationId) (i : TransitionId)
      → (application_ready (manager s n) a i).1 ≡ err e
      → (application_ready (manager s n) a i).0 ≡ manager s n
  unfolding application_ready
  ready_error (stable m) n a i h = refl
  ready_error (preparing j c t w r) n a i h = ground arith
  ready_error (committing j p t w d) n a i h = refl

  rejected_error :
      (s : ModeManagerState) (n : ℕ) (a : ApplicationId) (i : TransitionId) (reason : String)
      → (application_rejected (manager s n) a i reason).1 ≡ err e
      → (application_rejected (manager s n) a i reason).0 ≡ manager s n
  unfolding application_rejected
  rejected_error (stable m) n a i reason h = refl
  rejected_error (preparing j c t w r) n a i reason h = ground arith
  rejected_error (committing j p t w d) n a i reason h = refl

  committed_error :
      (s : ModeManagerState) (n : ℕ) (a : ApplicationId) (i : TransitionId) (mode : SystemMode)
      → (application_committed (manager s n) a i mode).1 ≡ err e
      → (application_committed (manager s n) a i mode).0 ≡ manager s n
  unfolding application_committed
  committed_error (stable m) n a i mode h = refl
  committed_error (preparing j c t w r) n a i mode h = refl
  committed_error (committing j p t w d) n a i mode h = ground arith

pub error_unchanged :
    (m : ModeManager) (a : ApplicationId) (i : TransitionId) (mode : SystemMode) (reason : String)
    (ps : List ApplicationId) (e : ModeError)
    → ((request_transition m mode ps).1 ≡ err e → (request_transition m mode ps).0 ≡ m)
      × ((application_ready m a i).1 ≡ err e → (application_ready m a i).0 ≡ m)
      × ((application_rejected m a i reason).1 ≡ err e → (application_rejected m a i reason).0 ≡ m)
      × ((application_committed m a i mode).1 ≡ err e → (application_committed m a i mode).0 ≡ m)
error_unchanged m a i mode reason ps e = (
  request_error e m.state m.next_transition_id mode ps,
  ready_error e m.state m.next_transition_id a i,
  rejected_error e m.state m.next_transition_id a i reason,
  committed_error e m.state m.next_transition_id a i mode,
)

abbrev pub error_of : {A : Type 0} → Result A ModeError → Option ModeError
error_of (ok a) = none
error_of (err e) = some e

-- The error that an operation returns, if it does.
abbrev pub step_error : ModeManager → Operation → Option ModeError
step_error m (request target ps) = error_of (request_transition m target ps).1
step_error m (ready a i) = error_of (application_ready m a i).1
step_error m (rejected a i reason) = error_of (application_rejected m a i reason).1
step_error m (committed a i mode) = error_of (application_committed m a i mode).1

error_of-eq-some :
    {A : Type 0} (r : Result A ModeError) {e : ModeError} → error_of r ≡ some e → r ≡ err e
error_of-eq-some (ok a) h = cc
error_of-eq-some (err x) h = cc

-- An operation that returns an error, whichever it is, leaves the mode manager as it was.
pub refused_operation_unchanged :
    (m : ModeManager) (o : Operation) (e : ModeError) → step_error m o ≡ some e → step m o ≡ m
unfolding step
refused_operation_unchanged m (request target ps) e h =
    (error_unchanged m "" 0 target "" ps e).0 (error_of-eq-some _ h)
refused_operation_unchanged m (ready a i) e h =
    (error_unchanged m a i startup "" [] e).1 (error_of-eq-some _ h)
refused_operation_unchanged m (rejected a i reason) e h =
    (error_unchanged m a i startup reason [] e).2 (error_of-eq-some _ h)
refused_operation_unchanged m (committed a i mode) e h =
    (error_unchanged m a i mode "" [] e).3 (error_of-eq-some _ h)
