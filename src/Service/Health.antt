-- ===== src/Service/Health.antt =====
-- The system's health and the health that the operator is shown for each application.
use rust_state_machine_cowbo.Prelude.{
  Bool, true, not, ◌&&◌, ◌||◌, List, [], ◌∷◌, map, ◌≡◌, refl, sym, ◌∙◌, ◌==◌, arith, ◌≢◌, ap,
}
use rust_state_machine_cowbo.Protocol.{
  SystemMode, HealthState, healthy, degraded, failed, mode_eq, health_eq,
}
use rust_state_machine_cowbo.Core.Registry.{Instant, ApplicationStatus, ApplicationRegistry}
use rust_state_machine_cowbo.Core.Health.{HealthManager, calculate_application}
use rust_state_machine_cowbo.Core.Health.Aggregate.{worse, worst, calculate-eq-worst}
use rust_state_machine_cowbo.Service.State.{
  ServiceState, has_mode_mismatch, overall_health, recalculate_health,
}
use rust_state_machine_cowbo.Service.Snapshot.{
  ApplicationSnapshot, view, insert_sorted, sort_by_application, applications,
  effective_application_health,
}

-- The worst effective health in a list of snapshots.
abbrev pub worst_effective : List ApplicationSnapshot → HealthState
worst_effective [] = healthy
worst_effective (x ∷ xs) = worse x.effective_health (worst_effective xs)

worst_effective-insert_sorted :
    (x : ApplicationSnapshot) (xs : List ApplicationSnapshot)
    → worst_effective (insert_sorted x xs) ≡ worse x.effective_health (worst_effective xs)
unfolding insert_sorted
worst_effective-insert_sorted x [] = refl
worst_effective-insert_sorted x (y ∷ ys) = ground (arith, worst_effective-insert_sorted x ys)

worst_effective-sort :
    (xs : List ApplicationSnapshot) → worst_effective (sort_by_application xs) ≡ worst_effective xs
unfolding sort_by_application
worst_effective-sort [] = refl
worst_effective-sort (x ∷ xs) =
    worst_effective-insert_sorted x (sort_by_application xs)
    ∙ ap (worse x.effective_health) (worst_effective-sort xs)

connected_of_up :
    (h : HealthManager) (s : ApplicationStatus) (now : Instant)
    → calculate_application h s now ≢ failed
    → s.connected ≡ true
unfolding calculate_application
connected_of_up h s now n = ground arith

-- One more application, with base health `b`.
overall_cons :
    (b w : HealthState) (connected same mismatch : Bool)
    → (b ≢ failed → connected ≡ true)
    → overall_health (worse b w) (connected && not same || mismatch)
      ≡ worse (effective_application_health b (connected && same)) (overall_health w mismatch)
overall_cons healthy w connected same mismatch up = ground arith
overall_cons degraded w connected same mismatch up = ground arith
overall_cons failed w connected same mismatch up = refl

overall_worst :
    (h : HealthManager) (mode : SystemMode) (now : Instant) (r : ApplicationRegistry)
    → overall_health (worst h now r) (has_mode_mismatch mode r)
      ≡ worst_effective (map (view h mode now) r)
unfolding has_mode_mismatch view
overall_worst h mode now [] = refl
overall_worst h mode now ((a, s) ∷ r) =
    overall_cons (calculate_application h s now) (worst h now r) s.connected
      (s.current_mode == mode) (has_mode_mismatch mode r) (connected_of_up h s now)
    ∙ ap (worse (view h mode now (a, s)).effective_health) (overall_worst h mode now r)

-- The health that the service computes for the system is the worst effective health in the
-- snapshot that it shows, whatever the order of the table.
pub recalculate_health-eq-worst_effective :
    {Sender : Type 0} (state : ServiceState Sender) (now : Instant)
    → (recalculate_health state now).system.health ≡ worst_effective (applications state now)
unfolding applications
recalculate_health-eq-worst_effective state now =
    ap (λ w. overall_health w (has_mode_mismatch state.system.mode state.applications))
      (calculate-eq-worst state.health state.applications now)
    ∙ overall_worst state.health state.system.mode now state.applications
    ∙ sym (worst_effective-sort (map (view state.health state.system.mode now) state.applications))
