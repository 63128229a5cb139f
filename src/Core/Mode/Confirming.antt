-- ===== src/Core/Mode/Confirming.antt =====
-- Responses that change the mode from a commit under way have confirmed it for everybody.
use rust_state_machine_cowbo.Prelude.{
  ℕ, true, ◌≡◌, refl, sym, ◌≢◌, ◌⊎◌, inl, inr, List, [], ◌∷◌, ap, nat_eq, string_eq, All, ◌==◌,
  Bool-cases, ==_eq,
}
use rust_state_machine_cowbo.HashSet.{
  HashSet, contains-remove, contains-insert, contains-collect, not-is_empty_of_contains,
}
use rust_state_machine_cowbo.HashSet
use rust_state_machine_cowbo.Protocol.{SystemMode, TransitionId, ApplicationId, mode_eq}
use rust_state_machine_cowbo.Core.Mode.{
  committing, Operation, request, ready, rejected, committed, current_mode, run,
}
use rust_state_machine_cowbo.Core.Mode.Responses.{
  IsResponse, manager, run-step, stable_run, committed_outcome, ready_while_committing,
  rejected_while_committing,
}

abbrev pub Occurs : Operation → List Operation → Type 0
Occurs o [] = ⊥
Occurs o (x ∷ xs) = (x ≡ o) ⊎ Occurs o xs

-- An item of a set that is not the one removed stays, so a set with another item is not emptied.
pub stays :
    (x a : ApplicationId) (w : HashSet ApplicationId)
    → HashSet.contains x w ≡ true
    → (x ≡ a) ⊎ (HashSet.contains x (HashSet.remove a w) ≡ true)
stays x a w h = elim (Bool-cases (a == x)) [
  | inl e ↦ inl (sym (==_eq a x e))
  | inr e ↦ inr (rw (contains-remove x a w, e) h)
]

pub only :
    (x a : ApplicationId) (w : HashSet ApplicationId)
    → HashSet.contains x w ≡ true
    → HashSet.is_empty (HashSet.remove a w) ≡ true
    → x ≡ a
only x a w h e = elim (stays x a w h) [
  | inl q ↦ q
  | inr q ↦ absurd (cc (not-is_empty_of_contains x (HashSet.remove a w) q))
]

abbrev pub AllCommitted :
    TransitionId
    → SystemMode
    → SystemMode
    → HashSet ApplicationId
    → SystemMode
    → List Operation
    → Type 0
AllCommitted i p t w end os =
    end ≢ p
    → (end ≡ t) × ((x : ApplicationId) → HashSet.contains x w ≡ true → Occurs (committed x i t) os)

module _ (i : TransitionId) (p t : SystemMode) (end : SystemMode) (os : List Operation) where
  later_committed :
      (o : Operation) (w : HashSet ApplicationId)
      → AllCommitted i p t w end os
      → AllCommitted i p t w end (o ∷ os)
  later_committed o w h ne = ((h ne).0, λ x m. inr ((h ne).1 x m))

  next_committed :
      (a : ApplicationId) (w : HashSet ApplicationId)
      → AllCommitted i p t (HashSet.remove a w) end os
      → AllCommitted i p t w end (committed a i t ∷ os)
  next_committed a w h ne = (
    (h ne).0,
    λ x m. elim (stays x a w m) [
      | inl e ↦ inl (ap (λ y. committed y i t) (sym e))
      | inr e ↦ inr ((h ne).1 x e)
    ],
  )

  last_committed :
      (a : ApplicationId) (w : HashSet ApplicationId)
      → HashSet.is_empty (HashSet.remove a w) ≡ true
      → end ≡ t
      → AllCommitted i p t w end (committed a i t ∷ os)
  last_committed a w e h ne = (h, λ x m. inl (ap (λ y. committed y i t) (sym (only x a w m e))))

pub committing_run :
    (i : TransitionId) (p t : SystemMode) (w d : HashSet ApplicationId) (n : ℕ)
    (os : List Operation)
    → All IsResponse os
    → AllCommitted i p t w (current_mode (run (manager (committing i p t w d) n) os)) os
unfolding run
committing_run i p t w d n [] h = λ ne. absurd (ne refl)
committing_run i p t w d n (request target ps ∷ os) h = absurd h.0
committing_run i p t w d n (ready a j ∷ os) h =
    rw (run-step _ _ os (ready_while_committing i p t w d n a j))
      (later_committed i p t _ os (ready a j) w (committing_run i p t w d n os h.1))
committing_run i p t w d n (rejected a j reason ∷ os) h =
    rw (run-step _ _ os (rejected_while_committing i p t w d n a j reason))
      (later_committed i p t _ os (rejected a j reason) w (committing_run i p t w d n os h.1))
committing_run i p t w d n (committed a j mode ∷ os) h =
    elim (committed_outcome i p t w d n a j mode) [
      | inl (e, _) ↦
          rw (run-step _ _ os e)
            (later_committed i p t _ os (committed a j mode) w (committing_run i p t w d n os h.1))
      | inr (inl (ej, em, _, emp, e)) ↦
          rw (run-step _ _ os e, ← ej, ← em, stable_run t n os h.1)
            (last_committed i p t _ os a w emp refl)
      | inr (inr (ej, em, _, _, e)) ↦
          rw (run-step _ _ os e, ← ej, ← em)
            (next_committed i p t _ os a w
              (committing_run i p t (HashSet.remove a w) (HashSet.insert a d) n os h.1))
    ]
