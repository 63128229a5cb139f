-- ===== src/Core/Health/Aggregate.antt =====
-- The aggregate health is the worst health of an application, in whatever order they are visited.
use rust_state_machine_cowbo.Prelude.{
  ◌<◌, ◌-◌, false, ◌≡◌, refl, sym, ◌≢◌, ◌⊎◌, inl, inr, ◌↔◌, List, [], ◌∷◌, arith, ◌∙◌, ap, ap₂,
}
use mathlib.Core.List.{Perm, Permᴰ}
use mathlib.Core.Logic.{∥∥₁_elim}
use rust_state_machine_cowbo.Protocol.{HealthState, healthy, degraded, failed, ApplicationId}
use rust_state_machine_cowbo.Core.Registry.{Instant, ApplicationStatus, ApplicationRegistry}
use rust_state_machine_cowbo.Core.Health.{
  HealthManager, calculate_application, calculate_from, calculate,
}

HealthState-set : IsSet HealthState
HealthState-set = hlevel

-- `Failed` dominates `Degraded`, which dominates `Healthy`.
abbrev pub worse : HealthState → HealthState → HealthState
worse failed _ = failed
worse degraded failed = failed
worse degraded _ = degraded
worse healthy h = h

worse_comm : (a b : HealthState) → worse a b ≡ worse b a
worse_comm a b = ground arith

worse_assoc : (a b c : HealthState) → worse (worse a b) c ≡ worse a (worse b c)
worse_assoc a b c = ground arith

abbrev pub worst : HealthManager → Instant → List (ApplicationId × ApplicationStatus) → HealthState
worst h now [] = healthy
worst h now ((_, s) ∷ rest) = worse (calculate_application h s now) (worst h now rest)

worst_from :
    (h : HealthManager) (now : Instant) (overall : HealthState) (r : ApplicationRegistry)
    → overall ≢ failed
    → calculate_from h now overall r ≡ worse overall (worst h now r)
unfolding calculate_from
worst_from h now overall [] n = ground arith
worst_from h now overall ((a, s) ∷ r) n =
    ground (arith, worst_from h now degraded r, worst_from h now overall r)

-- The loop with its early return computes the worst health of the registered applications.
pub calculate-eq-worst :
    (h : HealthManager) (r : ApplicationRegistry) (now : Instant)
    → calculate h r now ≡ worst h now r
unfolding calculate
calculate-eq-worst h r now = ground (arith, worst_from h now healthy r)

worst-permᴰ :
    (h : HealthManager) (now : Instant) {xs ys : List (ApplicationId × ApplicationStatus)}
    → Permᴰ xs ys
    → worst h now xs ≡ worst h now ys
worst-permᴰ h now Permᴰ.nil = refl
worst-permᴰ h now (Permᴰ.cons {a = x} {b = y} e p) =
    ap₂ (λ z w. worse (calculate_application h z.1 now) w) e (worst-permᴰ h now p)
worst-permᴰ h now (Permᴰ.swap {a = x} {b = y} {l = l} e f) = ground (
  arith,
  ap (λ z. z.1) e,
  ap (λ z. z.1) f,
  worse_assoc (calculate_application h x.1 now) (calculate_application h y.1 now) (worst h now l),
)
worst-permᴰ h now (Permᴰ.trans p q) = worst-permᴰ h now p ∙ worst-permᴰ h now q

-- The order in which the table is visited does not matter.
pub calculate-perm :
    (h : HealthManager) (now : Instant) (r r' : ApplicationRegistry)
    → Perm r r'
    → calculate h r now ≡ calculate h r' now
calculate-perm h now r r' p =
    calculate-eq-worst h r now
    ∙ ∥∥₁_elim p (HealthState-set _ _) (worst-permᴰ h now)
    ∙ sym (calculate-eq-worst h r' now)

abbrev pub Any : (ApplicationStatus → Type 0) → ApplicationRegistry → Type 0
Any P [] = ⊥
Any P ((_, s) ∷ r) = P s ⊎ Any P r

abbrev pub Each : (ApplicationStatus → Type 0) → ApplicationRegistry → Type 0
Each P [] = Unit {0}
Each P ((_, s) ∷ r) = P s × Each P r

worst-failed :
    (h : HealthManager) (now : Instant) (r : ApplicationRegistry)
    → (worst h now r ≡ failed) ↔ Any (λ s. calculate_application h s now ≡ failed) r
worst-failed h now [] = ground arith
worst-failed h now ((a, s) ∷ r) = ground (arith, worst-failed h now r)

worst-healthy :
    (h : HealthManager) (now : Instant) (r : ApplicationRegistry)
    → (worst h now r ≡ healthy) ↔ Each (λ s. calculate_application h s now ≡ healthy) r
worst-healthy h now [] = ground arith
worst-healthy h now ((a, s) ∷ r) = ground (arith, worst-healthy h now r)

-- The reason for which `calculate_application` finds an application failed.
abbrev pub IsDown : HealthManager → Instant → ApplicationStatus → Type 0
IsDown h now s =
    (s.connected ≡ false) ⊎ (h.heartbeat_timeout < now - s.last_heartbeat) ⊎ (s.health ≡ failed)

pub calculate_application-failed :
    (h : HealthManager) (now : Instant) (s : ApplicationStatus)
    → (calculate_application h s now ≡ failed) ↔ IsDown h now s
unfolding calculate_application
calculate_application-failed h now s = ground arith

Any-iff :
    (P Q : ApplicationStatus → Type 0) (r : ApplicationRegistry)
    → ((s : ApplicationStatus) → P s ↔ Q s)
    → Any P r ↔ Any Q r
Any-iff P Q [] h = (λ x. x, λ x. x)
Any-iff P Q ((a, s) ∷ r) h = (
  elim [ inl p ↦ inl ((h s).0 p) | inr q ↦ inr ((Any-iff P Q r h).0 q) ],
  elim [ inl p ↦ inl ((h s).1 p) | inr q ↦ inr ((Any-iff P Q r h).1 q) ],
)

-- The system has failed exactly when some application is disconnected, has been silent for longer
-- than the timeout, or reports a failure; and it is healthy exactly when each application is.
pub calculate_cases :
    (h : HealthManager) (now : Instant) (r : ApplicationRegistry)
    → ((calculate h r now ≡ failed) ↔ Any (IsDown h now) r)
      × ((calculate h r now ≡ healthy) ↔ Each (λ s. calculate_application h s now ≡ healthy) r)
calculate_cases h now r =
    let any = Any-iff _ (IsDown h now) r (calculate_application-failed h now) in
    let down = worst-failed h now r in
    rw (calculate-eq-worst h r now)
      ((λ e. any.0 (down.0 e), λ a. down.1 (any.1 a)), worst-healthy h now r)
