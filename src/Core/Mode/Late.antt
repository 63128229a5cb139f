-- ===== src/Core/Mode/Late.antt =====
-- Responses that come too late for the phase of a transition, by its state, and how the manager refuses them.
use rust_state_machine_cowbo.Prelude.{
  String, false, ◌||◌, some, ◌≡◌, ◌≢◌, ◌⊎◌, inl, inr, arith, refl, nat_eq, string_eq, ==_refl,
  Bool-cases, ◌==◌,
}
use rust_state_machine_cowbo.HashSet
use rust_state_machine_cowbo.Protocol.{
  SystemMode, TransitionId, ApplicationId, ApplicationToSam, mode_eq,
}
use rust_state_machine_cowbo.Core.Mode.{
  stable, preparing, committing, ModeManager, ModeManagerState, ModeError, invalid_phase,
  stale_transition, unknown_participant, application_ready, application_rejected,
  application_committed,
}
use rust_state_machine_cowbo.Core.Mode.Errors.{error_of}

-- The wrong phase, another transition, or an application that is not waited for.
abbrev pub IsLate : ModeError → Type 0
IsLate e =
    (e ≡ invalid_phase)
    ⊎ (e ≡ stale_transition)
    ⊎ ((a : ApplicationId) × (e ≡ unknown_participant a))

-- A response that the state does not wait for: no transition is in the phase of the response, or one with
-- another id, or one that does not wait for its sender. A rejection may also come from an application
-- that has approved, and the mode of a confirmation is that of the transition.
abbrev pub IsLateResponse : ApplicationToSam → ModeManagerState → Type 0
IsLateResponse (ApplicationToSam.register a version) state = ⊥
IsLateResponse (ApplicationToSam.heartbeat a _ _) state = ⊥
IsLateResponse (ApplicationToSam.mode_ready a i) (preparing j c t w r) =
    (j ≢ i) ⊎ (HashSet.contains a w ≡ false)
IsLateResponse (ApplicationToSam.mode_ready a i) _ = Unit
IsLateResponse (ApplicationToSam.mode_rejected a i reason) (preparing j c t w r) =
    (j ≢ i) ⊎ ((HashSet.contains a w || HashSet.contains a r) ≡ false)
IsLateResponse (ApplicationToSam.mode_rejected a i reason) _ = Unit
IsLateResponse (ApplicationToSam.mode_committed a i mode) (committing j p t w d) =
    (j ≢ i) ⊎ ((t ≡ mode) × (HashSet.contains a w ≡ false))
IsLateResponse (ApplicationToSam.mode_committed a i mode) _ = Unit

module _ (m : ModeManager) (a : ApplicationId) (i : TransitionId) where
  pub application_ready-IsLate :
      (state : ModeManagerState)
      → m.state ≡ state
      → IsLateResponse (ApplicationToSam.mode_ready a i) state
      → (e : ModeError) × (error_of (application_ready m a i).1 ≡ some e) × IsLate e
  unfolding application_ready
  application_ready-IsLate (preparing j c t w r) h (inl n) =
      (stale_transition, ground (arith, h, n), inr (inl refl))
  application_ready-IsLate (preparing j c t w r) h (inr k) = elim (Bool-cases (j == i)) [
    | inl e ↦ (unknown_participant a, ground (arith, h, e, k), inr (inr (a, refl)))
    | inr n ↦ (stale_transition, ground (arith, h, n), inr (inl refl))
  ]
  application_ready-IsLate (stable c) h l = (invalid_phase, ground (arith, h), inl refl)
  application_ready-IsLate (committing j p t w d) h l = (invalid_phase, ground (arith, h), inl refl)

  pub application_rejected-IsLate :
      (reason : String) (state : ModeManagerState)
      → m.state ≡ state
      → IsLateResponse (ApplicationToSam.mode_rejected a i reason) state
      → (e : ModeError) × (error_of (application_rejected m a i reason).1 ≡ some e) × IsLate e
  unfolding application_rejected
  application_rejected-IsLate reason (preparing j c t w r) h (inl n) =
      (stale_transition, ground (arith, h, n), inr (inl refl))
  application_rejected-IsLate reason (preparing j c t w r) h (inr k) = elim (Bool-cases (j == i)) [
    | inl e ↦ (unknown_participant a, ground (arith, h, e, k), inr (inr (a, refl)))
    | inr n ↦ (stale_transition, ground (arith, h, n), inr (inl refl))
  ]
  application_rejected-IsLate reason (stable c) h l = (invalid_phase, ground (arith, h), inl refl)
  application_rejected-IsLate reason (committing j p t w d) h l =
      (invalid_phase, ground (arith, h), inl refl)

  pub application_committed-IsLate :
      (mode : SystemMode) (state : ModeManagerState)
      → m.state ≡ state
      → IsLateResponse (ApplicationToSam.mode_committed a i mode) state
      → (e : ModeError) × (error_of (application_committed m a i mode).1 ≡ some e) × IsLate e
  unfolding application_committed
  application_committed-IsLate mode (committing j p t w d) h (inl n) =
      (stale_transition, ground (arith, h, n), inr (inl refl))
  application_committed-IsLate mode (committing j p t w d) h (inr (same, k)) =
      elim (Bool-cases (j == i)) [
        | inl e ↦ (
          unknown_participant a,
          ground (arith, h, e, same, k, ==_refl mode),
          inr (inr (a, refl)),
        )
        | inr n ↦ (stale_transition, ground (arith, h, n), inr (inl refl))
      ]
  application_committed-IsLate mode (stable c) h l = (invalid_phase, ground (arith, h), inl refl)
  application_committed-IsLate mode (preparing j c t w r) h l =
      (invalid_phase, ground (arith, h), inl refl)
