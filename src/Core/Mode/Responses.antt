-- ===== src/Core/Mode/Responses.antt =====
-- What one response does to the manager in each phase, and what leaves it alone.
use rust_state_machine_cowbo.Prelude.{
  ℕ, String, true, false, ◌≡◌, refl, ◌⊎◌, List, [], ◌∷◌, arith, nat_eq, string_eq, All, ◌==◌,
}
use rust_state_machine_cowbo.HashSet.{HashSet}
use rust_state_machine_cowbo.HashSet
use rust_state_machine_cowbo.Protocol.{SystemMode, TransitionId, ApplicationId, mode_eq}
use rust_state_machine_cowbo.Core.Mode.{
  ModeManagerState, stable, preparing, committing, ModeManager, Operation, request, ready, rejected,
  committed, step, run,
}

abbrev pub IsResponse : Operation → Type 0
IsResponse (request target participants) = ⊥
IsResponse _ = Unit {0}

-- The transition that an operation speaks of.
abbrev pub Speaks : TransitionId → Operation → Type 0
Speaks i (request target participants) = ⊥
Speaks i (ready a j) = i ≡ j
Speaks i (rejected a j reason) = i ≡ j
Speaks i (committed a j mode) = i ≡ j

-- The transition under way, if it is `i`.
abbrev pub IsActive : TransitionId → ModeManagerState → Type 0
IsActive i (stable mode) = ⊥
IsActive i (preparing j current target waiting_for done) = i ≡ j
IsActive i (committing j previous target waiting_for done) = i ≡ j

abbrev pub manager : ModeManagerState → ℕ → ModeManager
manager s n = record { state = s; next_transition_id = n }

pub run-step :
    (m : ModeManager) {m' : ModeManager} (o : Operation) (os : List Operation)
    → step m o ≡ m'
    → run m (o ∷ os) ≡ run m' os
unfolding run
run-step m o os e = rw e

-- A stable manager takes no notice of responses.
stable_step :
    (mode : SystemMode) (n : ℕ) (o : Operation)
    → IsResponse o
    → step (manager (stable mode) n) o ≡ manager (stable mode) n
unfolding step
stable_step mode n (request target ps) h = absurd h
stable_step mode n (ready a i) h = refl
stable_step mode n (rejected a i reason) h = refl
stable_step mode n (committed a i mode') h = refl

pub stable_run :
    (mode : SystemMode) (n : ℕ) (os : List Operation)
    → All IsResponse os
    → run (manager (stable mode) n) os ≡ manager (stable mode) n
unfolding run
stable_run mode n [] h = refl
stable_run mode n (o ∷ os) h = rw (stable_step mode n o h.0) (stable_run mode n os h.1)

-- A response that belongs to the other phase is ignored.
pub ready_while_committing :
    (i : TransitionId) (p t : SystemMode) (w d : HashSet ApplicationId) (n : ℕ) (a : ApplicationId)
    (j : TransitionId)
    → step (manager (committing i p t w d) n) (ready a j) ≡ manager (committing i p t w d) n
unfolding step
ready_while_committing i p t w d n a j = refl

pub rejected_while_committing :
    (i : TransitionId) (p t : SystemMode) (w d : HashSet ApplicationId) (n : ℕ) (a : ApplicationId)
    (j : TransitionId) (reason : String)
    → step (manager (committing i p t w d) n) (rejected a j reason)
      ≡ manager (committing i p t w d) n
unfolding step
rejected_while_committing i p t w d n a j reason = refl

pub committed_while_preparing :
    (i : TransitionId) (c t : SystemMode) (w r : HashSet ApplicationId) (n : ℕ) (a : ApplicationId)
    (j : TransitionId) (mode : SystemMode)
    → step (manager (preparing i c t w r) n) (committed a j mode) ≡ manager (preparing i c t w r) n
unfolding step
committed_while_preparing i c t w r n a j mode = refl

-- The three outcomes of `application_ready` while preparing.
pub ready_outcome :
    (i : TransitionId) (c t : SystemMode) (w r : HashSet ApplicationId) (n : ℕ) (a : ApplicationId)
    (j : TransitionId)
    → let m = manager (preparing i c t w r) n in
      let m' = step m (ready a j) in
      ((m' ≡ m) × (((i == j) ≡ false) ⊎ (HashSet.contains a w ≡ false)))
      ⊎ ((i ≡ j)
          × (HashSet.contains a w ≡ true)
          × (HashSet.is_empty (HashSet.remove a w) ≡ true)
          × (m' ≡ manager (committing i c t (HashSet.insert a r) []) n))
      ⊎ ((i ≡ j)
          × (HashSet.contains a w ≡ true)
          × (HashSet.is_empty (HashSet.remove a w) ≡ false)
          × (m' ≡ manager (preparing i c t (HashSet.remove a w) (HashSet.insert a r)) n))
unfolding step
ready_outcome i c t w r n a j = ground arith

pub committed_outcome :
    (i : TransitionId) (p t : SystemMode) (w d : HashSet ApplicationId) (n : ℕ) (a : ApplicationId)
    (j : TransitionId) (mode : SystemMode)
    → let m = manager (committing i p t w d) n in
      let m' = step m (committed a j mode) in
      ((m' ≡ m) × (((i == j) ≡ false) ⊎ ((t == mode) ≡ false) ⊎ (HashSet.contains a w ≡ false)))
      ⊎ ((i ≡ j)
          × (t ≡ mode)
          × (HashSet.contains a w ≡ true)
          × (HashSet.is_empty (HashSet.remove a w) ≡ true)
          × (m' ≡ manager (stable t) n))
      ⊎ ((i ≡ j)
          × (t ≡ mode)
          × (HashSet.contains a w ≡ true)
          × (HashSet.is_empty (HashSet.remove a w) ≡ false)
          × (m' ≡ manager (committing i p t (HashSet.remove a w) (HashSet.insert a d)) n))
unfolding step
committed_outcome i p t w d n a j mode = ground arith

-- A rejection while preparing is ignored, or ends the transition in the old mode.
pub rejected_outcome :
    (i : TransitionId) (c t : SystemMode) (w r : HashSet ApplicationId) (n : ℕ) (a : ApplicationId)
    (j : TransitionId) (reason : String)
    → let m = manager (preparing i c t w r) n in
      let m' = step m (rejected a j reason) in (m' ≡ m) ⊎ ((i ≡ j) × (m' ≡ manager (stable c) n))
unfolding step
rejected_outcome i c t w r n a j reason = ground arith

foreign_step :
    (s : ModeManagerState) (n : ℕ) (o : Operation) (i : TransitionId)
    → Speaks i o
    → ¬ IsActive i s
    → step (manager s n) o ≡ manager s n
unfolding step
foreign_step s n (request target ps) i h f = absurd h
foreign_step (stable mode) n (ready a j) i h f = refl
foreign_step (preparing k c t w r) n (ready a j) i h f = ground (arith, f)
foreign_step (committing k p t w d) n (ready a j) i h f = refl
foreign_step (stable mode) n (rejected a j reason) i h f = refl
foreign_step (preparing k c t w r) n (rejected a j reason) i h f = ground (arith, f)
foreign_step (committing k p t w d) n (rejected a j reason) i h f = refl
foreign_step (stable mode') n (committed a j mode) i h f = refl
foreign_step (preparing k c t w r) n (committed a j mode) i h f = refl
foreign_step (committing k p t w d) n (committed a j mode) i h f = ground (arith, f)

-- A response that names another transition than the one under way changes nothing.
pub foreign_response_ignored :
    (m : ModeManager) (o : Operation) (i : TransitionId)
    → Speaks i o
    → ¬ IsActive i m.state
    → step m o ≡ m
foreign_response_ignored m o i h f = foreign_step m.state m.next_transition_id o i h f
