-- ===== src/Core/Mode/Invariant.antt =====
-- What holds of the mode manager between two operations.
use rust_state_machine_cowbo.Prelude.{
  ℕ, String, true, false, ◌≡◌, refl, ◌≢◌, List, [], ◌∷◌, arith, string_eq,
}
use rust_state_machine_cowbo.HashSet.{
  HashSet, contains-remove, contains-insert, not-is_empty-insert,
}
use rust_state_machine_cowbo.HashSet
use rust_state_machine_cowbo.Protocol.{SystemMode, TransitionId, ApplicationId}
use rust_state_machine_cowbo.Core.Mode.{
  ModeManagerState, stable, preparing, committing, ModeManager, new, Operation, request, ready,
  rejected, committed, request_transition, application_ready, application_rejected,
  application_committed, step, run,
}

abbrev pub AreDisjoint : HashSet ApplicationId → HashSet ApplicationId → Type 0
AreDisjoint xs ys =
    (a : ApplicationId) → HashSet.contains a xs ≡ true → HashSet.contains a ys ≡ false

-- A transition waits for somebody, leads to another mode, and nobody counts as both waiting and done.
abbrev pub IsValidState : ModeManagerState → Type 0
IsValidState (stable mode) = Unit {0}
IsValidState (preparing id current target waiting_for done) =
    (current ≢ target) × (HashSet.is_empty waiting_for ≡ false) × AreDisjoint waiting_for done
IsValidState (committing id previous target waiting_for done) =
    (previous ≢ target) × (HashSet.is_empty waiting_for ≡ false) × AreDisjoint waiting_for done

move-AreDisjoint :
    (a : ApplicationId) (xs ys : HashSet ApplicationId)
    → AreDisjoint xs ys
    → AreDisjoint (HashSet.remove a xs) (HashSet.insert a ys)
move-AreDisjoint a xs ys h b m = ground (arith, contains-remove b a xs, contains-insert b a ys, h b)

empty-AreDisjoint : (xs : HashSet ApplicationId) → AreDisjoint xs []
unfolding HashSet.contains
empty-AreDisjoint xs a h = refl

request-IsValidState :
    (n : ℕ) (s : ModeManagerState) (target : SystemMode) (ps : List ApplicationId)
    → IsValidState s
    → IsValidState
        (request_transition (record { state = s; next_transition_id = n }) target ps).0.state
unfolding request_transition
request-IsValidState n (stable mode) target ps v =
    ground (arith, empty-AreDisjoint (HashSet.collect ps))
request-IsValidState n (preparing id c t w r) target ps v = v
request-IsValidState n (committing id c t w r) target ps v = v

ready-IsValidState :
    (n : ℕ) (s : ModeManagerState) (a : ApplicationId) (id : TransitionId)
    → IsValidState s
    → IsValidState (application_ready (record { state = s; next_transition_id = n }) a id).0.state
unfolding application_ready
ready-IsValidState n (stable mode) a id v = v
ready-IsValidState n (preparing i c t w r) a id v = ground (
  arith,
  move-AreDisjoint a w r v.2,
  empty-AreDisjoint (HashSet.insert a r),
  not-is_empty-insert a r,
)
ready-IsValidState n (committing i c t w r) a id v = v

rejected-IsValidState :
    (n : ℕ) (s : ModeManagerState) (a : ApplicationId) (id : TransitionId) (reason : String)
    → IsValidState s
    → IsValidState
        (application_rejected (record { state = s; next_transition_id = n }) a id reason).0.state
unfolding application_rejected
rejected-IsValidState n (stable mode) a id reason v = v
rejected-IsValidState n (preparing i c t w r) a id reason v = ground arith
rejected-IsValidState n (committing i c t w r) a id reason v = v

committed-IsValidState :
    (n : ℕ) (s : ModeManagerState) (a : ApplicationId) (id : TransitionId) (mode : SystemMode)
    → IsValidState s
    → IsValidState
        (application_committed (record { state = s; next_transition_id = n }) a id mode).0.state
unfolding application_committed
committed-IsValidState n (stable _) a id mode v = v
committed-IsValidState n (preparing i c t w r) a id mode v = v
committed-IsValidState n (committing i c t w r) a id mode v =
    ground (arith, move-AreDisjoint a w r v.2)

-- Every operation keeps the state valid.
pub step-IsValidState :
    (m : ModeManager) (o : Operation) → IsValidState m.state → IsValidState (step m o).state
unfolding step
step-IsValidState m (request target ps) v =
    request-IsValidState m.next_transition_id m.state target ps v
step-IsValidState m (ready a id) v = ready-IsValidState m.next_transition_id m.state a id v
step-IsValidState m (rejected a id reason) v =
    rejected-IsValidState m.next_transition_id m.state a id reason v
step-IsValidState m (committed a id mode) v =
    committed-IsValidState m.next_transition_id m.state a id mode v

run-IsValidState :
    (m : ModeManager) (os : List Operation) → IsValidState m.state → IsValidState (run m os).state
unfolding run
run-IsValidState m [] v = v
run-IsValidState m (o ∷ os) v = run-IsValidState (step m o) os (step-IsValidState m o v)

-- After any operations on a new manager, a transition under way waits for somebody, its target is
-- not the current mode, and no application counts both as waiting and as having answered.
pub run-new-IsValidState :
    (mode : SystemMode) (os : List Operation) → IsValidState (run (new mode) os).state
unfolding new
run-new-IsValidState mode os = run-IsValidState (new mode) os tt
