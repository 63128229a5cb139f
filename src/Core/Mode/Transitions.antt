-- ===== src/Core/Mode/Transitions.antt =====
-- Transition ids: a delayed response is never taken for one to a newer transition.
use rust_state_machine_cowbo.Prelude.{
  ℕ, ◌+◌, ◌^◌, ◌≤◌, ◌<◌, ◌≡◌, List, [], ◌∷◌, ok, arith, nat_eq, string_eq, length,
}
use rust_state_machine_cowbo.Protocol.{SystemMode, TransitionId, ApplicationId, mode_eq}
use rust_state_machine_cowbo.Core.Mode.{
  ModeManagerState, stable, preparing, committing, ModeManager, Operation, request, ready, rejected,
  committed, request_transition, step, run,
}
use rust_state_machine_cowbo.Core.Mode.Responses.{Speaks, foreign_response_ignored}
use rust_state_machine_cowbo.Core.Mode.Consent.{request_accepted}

-- An operation moves the counter by one at most, while it has not reached its width.
step-next :
    (s : ModeManagerState) (n : ℕ) (o : Operation)
    → n + 1 < 2 ^ 64
    → let m' = step (record { state = s; next_transition_id = n }) o in
      (n ≤ m'.next_transition_id) × (m'.next_transition_id ≤ n + 1)
unfolding step
step-next (stable mode) n (request target ps) h = ground arith
step-next (stable mode) n (ready a i) h = omega arith
step-next (stable mode) n (rejected a i reason) h = omega arith
step-next (stable mode) n (committed a i mode') h = omega arith
step-next (preparing i c t w r) n (request target ps) h = omega arith
step-next (preparing i c t w r) n (ready a j) h = ground arith
step-next (preparing i c t w r) n (rejected a j reason) h = ground arith
step-next (preparing i c t w r) n (committed a j mode) h = omega arith
step-next (committing i p t w d) n (request target ps) h = omega arith
step-next (committing i p t w d) n (ready a j) h = omega arith
step-next (committing i p t w d) n (rejected a j reason) h = omega arith
step-next (committing i p t w d) n (committed a j mode) h = ground arith

run-next :
    (m : ModeManager) (os : List Operation)
    → m.next_transition_id + length os < 2 ^ 64
    → m.next_transition_id ≤ (run m os).next_transition_id
unfolding run
run-next m [] h = omega arith
run-next m (o ∷ os) h =
    let (lo, hi) = step-next m.state m.next_transition_id o (omega arith) in
    omega (arith, run-next (step m o) os (omega arith))

-- After a request was accepted as `i`, any operations, and another accepted request, a response
-- that still names `i` changes nothing, as long as the counter has not come round.
pub delayed_response_ignored :
    (m : ModeManager) (target target' : SystemMode) (ps ps' : List ApplicationId)
    (os : List Operation) (o : Operation) {i j : TransitionId}
    → m.next_transition_id + length os + 1 < 2 ^ 64
    → (request_transition m target ps).1 ≡ ok i
    → (request_transition (run (request_transition m target ps).0 os) target' ps').1 ≡ ok j
    → Speaks i o
    → step (request_transition (run (request_transition m target ps).0 os) target' ps').0 o
      ≡ (request_transition (run (request_transition m target ps).0 os) target' ps').0
delayed_response_ignored m target target' ps ps' os o {i} {j} bound h h' s =
    let (_, _, _, a, e) = request_accepted m target ps h in
    let m' = (request_transition m target ps).0 in
    let (_, _, _, b, e') = request_accepted (run m' os) target' ps' h' in
    let n : m'.next_transition_id ≡ m.next_transition_id + 1 = rw e (omega arith) in
    let le : m'.next_transition_id ≤ (run m' os).next_transition_id =
      run-next m' os (omega arith) in
    foreign_response_ignored _ o i s (rw e' (omega arith))
