-- ===== src/Core/Mode/Consent.antt =====
-- The mode changes only with the consent of everybody who was asked, given twice.
use rust_state_machine_cowbo.Prelude.{
  ℕ, true, false, ◌||◌, ◌≡◌, refl, sym, ◌∙◌, ◌≢◌, inl, inr, List, [], ◌∷◌, ok, ap, arith, nat_eq,
  string_eq, All,
}
use rust_state_machine_cowbo.HashSet.{
  HashSet, contains-remove, contains-insert, contains-collect, not-is_empty_of_contains,
}
use rust_state_machine_cowbo.HashSet
use rust_state_machine_cowbo.Protocol.{SystemMode, TransitionId, ApplicationId, mode_eq}
use rust_state_machine_cowbo.Core.Mode.{
  stable, preparing, ModeManager, Operation, request, ready, rejected, committed,
  request_transition, current_mode, wrapping_add, run,
}
use rust_state_machine_cowbo.Core.Mode.Responses.{
  IsResponse, manager, run-step, stable_run, ready_outcome, rejected_outcome,
  committed_while_preparing,
}
use rust_state_machine_cowbo.Core.Mode.Confirming.{
  Occurs, stays, only, AllCommitted, committing_run,
}

-- The claim for a manager that is still preparing: `w` have to answer, `r` are ready.
abbrev AllConsented :
    TransitionId
    → SystemMode
    → SystemMode
    → HashSet ApplicationId
    → HashSet ApplicationId
    → SystemMode
    → List Operation
    → Type 0
AllConsented i c t w r end os =
    end ≢ c
    → (end ≡ t)
      × ((x : ApplicationId) → HashSet.contains x w ≡ true → Occurs (ready x i) os)
      × ((x : ApplicationId)
          → (HashSet.contains x w || HashSet.contains x r) ≡ true
          → Occurs (committed x i t) os)

module _ (i : TransitionId) (c t : SystemMode) (end : SystemMode) (os : List Operation) where
  later_consent :
      (o : Operation) (w r : HashSet ApplicationId)
      → AllConsented i c t w r end os
      → AllConsented i c t w r end (o ∷ os)
  later_consent o w r h ne = ((h ne).0, λ x m. inr ((h ne).1 x m), λ x m. inr ((h ne).2 x m))

  moved :
      (x a : ApplicationId) (w r : HashSet ApplicationId)
      → (HashSet.contains x w || HashSet.contains x r) ≡ true
      → (HashSet.contains x (HashSet.remove a w) || HashSet.contains x (HashSet.insert a r)) ≡ true
  moved x a w r h = ground (arith, contains-remove x a w, contains-insert x a r)

  next_consent :
      (a : ApplicationId) (w r : HashSet ApplicationId)
      → AllConsented i c t (HashSet.remove a w) (HashSet.insert a r) end os
      → AllConsented i c t w r end (ready a i ∷ os)
  next_consent a w r h ne = (
    (h ne).0,
    λ x m. elim (stays x a w m) [
      | inl e ↦ inl (ap (λ y. ready y i) (sym e))
      | inr e ↦ inr ((h ne).1 x e)
    ],
    λ x m. inr ((h ne).2 x (moved x a w r m)),
  )

  last_consent :
      (a : ApplicationId) (w r : HashSet ApplicationId)
      → HashSet.is_empty (HashSet.remove a w) ≡ true
      → AllCommitted i c t (HashSet.insert a r) end os
      → AllConsented i c t w r end (ready a i ∷ os)
  last_consent a w r e h ne = (
    (h ne).0,
    λ x m. inl (ap (λ y. ready y i) (sym (only x a w m e))),
    λ x m. inr ((h ne).1 x (kept x m)),
  )
    where
      kept :
          (x : ApplicationId)
          → (HashSet.contains x w || HashSet.contains x r) ≡ true
          → HashSet.contains x (HashSet.insert a r) ≡ true
      kept x m = ground (
        arith,
        contains-insert x a r,
        contains-remove x a w,
        not-is_empty_of_contains x (HashSet.remove a w),
      )

preparing_run :
    (i : TransitionId) (c t : SystemMode) (w r : HashSet ApplicationId) (n : ℕ)
    (os : List Operation)
    → All IsResponse os
    → AllConsented i c t w r (current_mode (run (manager (preparing i c t w r) n) os)) os
unfolding run
preparing_run i c t w r n [] h = λ ne. absurd (ne refl)
preparing_run i c t w r n (request target ps ∷ os) h = absurd h.0
preparing_run i c t w r n (committed a j mode ∷ os) h =
    rw (run-step _ _ os (committed_while_preparing i c t w r n a j mode))
      (later_consent i c t _ os (committed a j mode) w r (preparing_run i c t w r n os h.1))
preparing_run i c t w r n (rejected a j reason ∷ os) h =
    elim (rejected_outcome i c t w r n a j reason) [
      | inl e ↦
          rw (run-step _ _ os e)
            (later_consent i c t _ os (rejected a j reason) w r (preparing_run i c t w r n os h.1))
      | inr (_, e) ↦ rw (run-step _ _ os e, stable_run c n os h.1) (λ ne. absurd (ne refl))
    ]
preparing_run i c t w r n (ready a j ∷ os) h = elim (ready_outcome i c t w r n a j) [
  | inl (e, _) ↦
      rw (run-step _ _ os e)
        (later_consent i c t _ os (ready a j) w r (preparing_run i c t w r n os h.1))
  | inr (inl (ej, _, emp, e)) ↦
      rw (run-step _ _ os e, ← ej)
        (last_consent i c t _ os a w r emp (committing_run i c t (HashSet.insert a r) [] n os h.1))
  | inr (inr (ej, _, _, e)) ↦
      rw (run-step _ _ os e, ← ej)
        (next_consent i c t _ os a w r
          (preparing_run i c t (HashSet.remove a w) (HashSet.insert a r) n os h.1))
]

-- A request that is accepted starts to wait for the participants.
pub request_accepted :
    (m : ModeManager) (target : SystemMode) (ps : List ApplicationId) {i : TransitionId}
    → (request_transition m target ps).1 ≡ ok i
    → (m.state ≡ stable (current_mode m))
      × (current_mode m ≢ target)
      × (HashSet.is_empty (HashSet.collect ps) ≡ false)
      × (i ≡ m.next_transition_id)
      × ((request_transition m target ps).0
          ≡ manager
              (preparing i (current_mode m) target (HashSet.collect ps) [])
              (wrapping_add m.next_transition_id 1))
unfolding request_transition
request_accepted m target ps h = ground arith

-- If, after an accepted request, responses alone have changed the mode, then the mode is the
-- requested one, and each participant has answered that it is ready and has confirmed the commit,
-- both for this transition.
pub mode_change_needs_consent :
    (m : ModeManager) (target : SystemMode) (ps : List ApplicationId) (os : List Operation)
    (x : ApplicationId) {i : TransitionId}
    → (request_transition m target ps).1 ≡ ok i
    → All IsResponse os
    → HashSet.contains x ps ≡ true
    → current_mode (run (request_transition m target ps).0 os) ≢ current_mode m
    → (current_mode (run (request_transition m target ps).0 os) ≡ target)
      × Occurs (ready x i) os
      × Occurs (committed x i target) os
mode_change_needs_consent m target ps os x {i} h r q ne =
    let (_, _, _, _, e) = request_accepted m target ps h in
    let e' = ap (λ m'. current_mode (run m' os)) e in
    let (same, asked, done) =
      preparing_run i (current_mode m) target (HashSet.collect ps) [] _ os r (λ z. ne (e' ∙ z)) in
    let member = contains-collect x ps ∙ q in
    (e' ∙ same, asked x member, done x (ground (arith, member)))
