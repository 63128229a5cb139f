-- ===== src/Core/Mode/Stuck.antt =====
-- A transition has no time limit: an application that does not confirm its commit holds it up.
use rust_state_machine_cowbo.Prelude.{
  ℕ, true, ◌≡◌, refl, sym, ◌≢◌, List, [], ◌∷◌, err, arith, nat_eq, string_eq, All,
}
use rust_state_machine_cowbo.HashSet.{HashSet, contains-remove, not-is_empty_of_contains}
use rust_state_machine_cowbo.HashSet
use rust_state_machine_cowbo.Protocol.{SystemMode, ApplicationId, mode_eq}
use text.Mathlib.TextEquality.{eq_iff}
use rust_state_machine_cowbo.Core.Mode.{
  ModeManagerState, stable, preparing, committing, ModeManager, Operation, request, ready, rejected,
  committed, request_transition, current_mode, transition_in_progress, step, run,
}
use rust_state_machine_cowbo.Core.Mode.Responses.{manager}

-- The operation is no confirmation by `x`.
abbrev pub NotCommittedBy : ApplicationId → Operation → Type 0
NotCommittedBy x (request target participants) = Unit {0}
NotCommittedBy x (ready a i) = Unit {0}
NotCommittedBy x (rejected a i reason) = Unit {0}
NotCommittedBy x (committed a i mode) = a ≢ x

-- The manager is committing a transition from the mode `p`, and waits for `x`.
abbrev pub AwaitsCommit : ApplicationId → SystemMode → ModeManagerState → Type 0
AwaitsCommit x p (stable mode) = ⊥
AwaitsCommit x p (preparing i c t w r) = ⊥
AwaitsCommit x p (committing i q t w d) = (p ≡ q) × (HashSet.contains x w ≡ true)

pub step-AwaitsCommit :
    (x : ApplicationId) (p : SystemMode) (s : ModeManagerState) (n : ℕ) (o : Operation)
    → AwaitsCommit x p s
    → NotCommittedBy x o
    → AwaitsCommit x p (step (manager s n) o).state
unfolding step
step-AwaitsCommit x p (stable mode) n o h k = absurd h
step-AwaitsCommit x p (preparing i c t w r) n o h k = absurd h
step-AwaitsCommit x p (committing i q t w d) n (request target ps) h k = h
step-AwaitsCommit x p (committing i q t w d) n (ready a j) h k = h
step-AwaitsCommit x p (committing i q t w d) n (rejected a j reason) h k = h
step-AwaitsCommit x p (committing i q t w d) n (committed a j mode) h k =
    ground
      (arith, contains-remove x a w, eq_iff a x, not-is_empty_of_contains x (HashSet.remove a w), k)

run-AwaitsCommit :
    (x : ApplicationId) (p : SystemMode) (m : ModeManager) (os : List Operation)
    → AwaitsCommit x p m.state
    → All (NotCommittedBy x) os
    → AwaitsCommit x p (run m os).state
unfolding run
run-AwaitsCommit x p m [] h k = h
run-AwaitsCommit x p m (o ∷ os) h k =
    run-AwaitsCommit x p (step m o) os (step-AwaitsCommit x p m.state m.next_transition_id o h k.0)
      k.1

pub AwaitsCommit-refuses :
    (x : ApplicationId) (p : SystemMode) (m : ModeManager) (target : SystemMode)
    (ps : List ApplicationId)
    → AwaitsCommit x p m.state
    → (current_mode m ≡ p) × ((request_transition m target ps).1 ≡ err transition_in_progress)
unfolding request_transition
AwaitsCommit-refuses x p m target ps h = go m.state m.next_transition_id h
  where
    go :
        (s : ModeManagerState) (n : ℕ)
        → AwaitsCommit x p s
        → (current_mode (manager s n) ≡ p)
          × ((request_transition (manager s n) target ps).1 ≡ err transition_in_progress)
    go (stable mode) n h = absurd h
    go (preparing i c t w r) n h = absurd h
    go (committing i q t w d) n h = (sym h.0, refl)

-- While the manager waits for `x` to confirm its commit, no other operations, rejections included,
-- end the transition: the old mode stays, and every request is refused as `TransitionInProgress`.
pub unconfirmed_commit_blocks :
    (x : ApplicationId) (p : SystemMode) (m : ModeManager) (os : List Operation)
    (target : SystemMode) (ps : List ApplicationId)
    → AwaitsCommit x p m.state
    → All (NotCommittedBy x) os
    → (current_mode (run m os) ≡ p)
      × ((request_transition (run m os) target ps).1 ≡ err transition_in_progress)
unconfirmed_commit_blocks x p m os target ps h k =
    AwaitsCommit-refuses x p (run m os) target ps (run-AwaitsCommit x p m os h k)
