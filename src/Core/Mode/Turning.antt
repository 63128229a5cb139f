-- ===== src/Core/Mode/Turning.antt =====
-- Whether the answer of an application is the last one that a phase waits for, and what it does then.
use rust_state_machine_cowbo.Prelude.{
  String, true, false, ◌||◌, [], ◌∷◌, some, none, ok, ◌≡◌, ◌≢◌, ◌⊎◌, inl, inr, arith, nat_eq,
  string_eq, ==_refl, Bool-cases,
}
use rust_state_machine_cowbo.HashSet.{HashSet, contains-remove}
use rust_state_machine_cowbo.HashSet
use rust_state_machine_cowbo.Protocol.{SystemMode, TransitionId, ApplicationId, mode_eq}
use rust_state_machine_cowbo.Core.Mode.{
  stable, preparing, committing, ModeManager, preparation_complete, transition_complete,
  transition_aborted, application_ready, application_rejected, application_committed,
}
use rust_state_machine_cowbo.Core.Mode.Confirming.{only}

-- Nobody else is waited for, or somebody else is.
abbrev pub IsLast : ApplicationId → HashSet ApplicationId → Type 0
IsLast a w = (b : ApplicationId) → HashSet.contains b w ≡ true → b ≡ a

abbrev pub IsNotLast : ApplicationId → HashSet ApplicationId → Type 0
IsNotLast a w = (b : ApplicationId) × (HashSet.contains b w ≡ true) × (b ≢ a)

contains_of_not_empty :
    (w : HashSet ApplicationId)
    → HashSet.is_empty w ≡ false
    → (b : ApplicationId) × (HashSet.contains b w ≡ true)
unfolding HashSet.contains
contains_of_not_empty [] h = cc
contains_of_not_empty (b ∷ w) h = (b, ground (arith, ==_refl b))

pub IsLast-cases :
    (a : ApplicationId) (w : HashSet ApplicationId)
    → ((HashSet.is_empty (HashSet.remove a w) ≡ true) × IsLast a w)
      ⊎ ((HashSet.is_empty (HashSet.remove a w) ≡ false) × IsNotLast a w)
IsLast-cases a w = elim (Bool-cases (HashSet.is_empty (HashSet.remove a w))) [
  | inl e ↦ inl (e, λ b k. only b a w k e)
  | inr n ↦
      let (b, h) = contains_of_not_empty (HashSet.remove a w) n in
      inr (n, (b, (other b h).0, (other b h).1))
]
  where
    other :
        (b : ApplicationId)
        → HashSet.contains b (HashSet.remove a w) ≡ true
        → (HashSet.contains b w ≡ true) × (b ≢ a)
    other b h = (
      ground (arith, h, contains-remove b a w),
      λ e. ground (arith, h, contains-remove b a w, e, ==_refl a),
    )

module _ (m : ModeManager) (a : ApplicationId) (i : TransitionId) (c t : SystemMode)
    (w r : HashSet ApplicationId) where
  pub ready_last :
      m.state ≡ preparing i c t w r
      → HashSet.contains a w ≡ true
      → HashSet.is_empty (HashSet.remove a w) ≡ true
      → application_ready m a i ≡ (
        record m { state = committing i c t (HashSet.insert a r) [] },
        ok (some (preparation_complete i t)),
      )
  unfolding application_ready
  ready_last h k e = ground (arith, h, k, e)

  pub ready_not_last :
      m.state ≡ preparing i c t w r
      → HashSet.contains a w ≡ true
      → HashSet.is_empty (HashSet.remove a w) ≡ false
      → application_ready m a i
        ≡ (record m { state = preparing i c t (HashSet.remove a w) (HashSet.insert a r) }, ok none)
  unfolding application_ready
  ready_not_last h k e = ground (arith, h, k, e)

  pub rejected_aborts :
      (reason : String)
      → m.state ≡ preparing i c t w r
      → (HashSet.contains a w || HashSet.contains a r) ≡ true
      → application_rejected m a i reason
        ≡ (record m { state = stable c }, ok (transition_aborted i a reason))
  unfolding application_rejected
  rejected_aborts reason h k = ground (arith, h, k)

  pub committed_last :
      m.state ≡ committing i c t w r
      → HashSet.contains a w ≡ true
      → HashSet.is_empty (HashSet.remove a w) ≡ true
      → application_committed m a i t
        ≡ (record m { state = stable t }, ok (some (transition_complete i t)))
  unfolding application_committed
  committed_last h k e = ground (arith, h, k, e, ==_refl t)

  pub committed_not_last :
      m.state ≡ committing i c t w r
      → HashSet.contains a w ≡ true
      → HashSet.is_empty (HashSet.remove a w) ≡ false
      → application_committed m a i t
        ≡ (record m { state = committing i c t (HashSet.remove a w) (HashSet.insert a r) }, ok none)
  unfolding application_committed
  committed_not_last h k e = ground (arith, h, k, e, ==_refl t)
