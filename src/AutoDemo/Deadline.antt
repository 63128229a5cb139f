-- ===== src/AutoDemo/Deadline.antt =====
-- The waiting of the demo ends, and what its success means.
use rust_state_machine_cowbo.Prelude.{
  ◌+◌, ◌≤◌, ◌<>◌, String, Bool, true, false, not, List, [], ◌∷◌, Option, some, Result, ok, err,
  ◌==◌, ==_eq, leb, Exists, ◌≡◌, refl, ap, ◌∙◌, ◌⊎◌, inl, inr, arith, Bool-cases, Option-cases,
  Result-cases,
}
use rust_state_machine_cowbo.Protocol.{SystemMode, SamToApplication, TransitionId, mode_eq}
use rust_state_machine_cowbo.Core.Registry.{Instant}
use rust_state_machine_cowbo.Core.Health.{Duration}
use rust_state_machine_cowbo.Service.State.{ServiceState, transition_in_progress}
use rust_state_machine_cowbo.Service.Methods.{request_mode}
use rust_state_machine_cowbo.AutoDemo.{AutoDemoError, timed_out, service}
use rust_state_machine_cowbo.AutoDemo.Waiting.{
  debug_mode, debug_transition_id, Poll, poll_until, transition_to, check_retained,
  expect_rejected_transition,
}

module _ {Sender : Type 0} (test : Poll Sender → Bool) (awaited : Poll Sender → String)
    (deadline : Instant) where
  pub poll_until_ends :
      (polls : List (Poll Sender))
      → Exists (λ poll. deadline ≤ poll.checked) polls
      → (r : Result (Unit {0}) AutoDemoError) × (poll_until test awaited deadline polls ≡ some r)
  unfolding poll_until
  poll_until_ends [] h = absurd h
  poll_until_ends (poll ∷ polls) h = elim (Bool-cases (test poll)) [
    | inl met ↦ (ok tt, rw met refl)
    | inr unmet ↦ elim (Bool-cases (leb deadline poll.checked)) [
      | inl late ↦ (err (timed_out (awaited poll)), rw (unmet, late) refl)
      | inr early ↦ elim h [
        | inl p ↦ absurd (ground (arith, early, p))
        | inr more ↦ let (r, e) = poll_until_ends polls more in (r, rw (unmet, early) e)
      ]
    ]
  ]

  pub poll_until_met :
      (polls : List (Poll Sender))
      → poll_until test awaited deadline polls ≡ some (ok tt)
      → Exists (λ poll. test poll ≡ true) polls
  unfolding poll_until
  poll_until_met [] h = cc
  poll_until_met (poll ∷ polls) h = elim (Bool-cases (test poll)) [
    | inl met ↦ inl met
    | inr unmet ↦ inr (poll_until_met polls (ground (arith, unmet, h)))
  ]

  poll_until_cases :
      (polls : List (Poll Sender))
      → Exists (λ poll. deadline ≤ poll.checked) polls
      → ((poll_until test awaited deadline polls ≡ some (ok tt))
          × Exists (λ poll. test poll ≡ true) polls)
        ⊎ ((e : AutoDemoError) × (poll_until test awaited deadline polls ≡ some (err e)))
  poll_until_cases polls h =
      let (r, e) = poll_until_ends polls h in
      elim (Result-cases r) [
        | inl (_, q) ↦ inl (e ∙ ap some q, poll_until_met polls (e ∙ ap some q))
        | inr (x, q) ↦ inr (x, e ∙ ap some q)
      ]

pub Exists-map :
    {A : Type 0} (P Q : A → Type 0) (xs : List A)
    → ((x : A) → P x → Q x)
    → Exists P xs
    → Exists Q xs
Exists-map P Q [] f h = h
Exists-map P Q (x ∷ xs) f (inl p) = inl (f x p)
Exists-map P Q (x ∷ xs) f (inr h) = inr (Exists-map P Q xs f h)

module _ {Sender : Type 0} (try_send : Sender → SamToApplication → Option Sender) where
  -- If the clock passes the deadline at some round, an automatic transition ends: without an error,
  -- and then the mode was the target at the start or at some round, or with an error.
  pub transition_to_ends :
      (s asked : ServiceState Sender) (target : SystemMode) (timeout : Duration) (start : Instant)
      (polls : List (Poll Sender))
      → Exists (λ poll. start + timeout ≤ poll.checked) polls
      → (((transition_to try_send s asked target timeout start polls).1 ≡ some (ok tt))
          × ((s.system.mode ≡ target) ⊎ Exists (λ poll. poll.state.system.mode ≡ target) polls))
        ⊎ ((e : AutoDemoError) × ((transition_to try_send s asked target timeout start polls).1
              ≡ some (err e)))
  unfolding transition_to
  transition_to_ends s asked target timeout start polls h =
      elim (Bool-cases (s.system.mode == target)) [
        | inl there ↦ inl (rw there refl, inl (==_eq s.system.mode target there))
        | inr away ↦ elim (Result-cases (request_mode try_send asked target).1) [
          | inr (e, q) ↦ inr (service e, rw (away, q) refl)
          | inl (id, q) ↦
              elim (poll_until_cases (λ poll. poll.state.system.mode == target) (awaits id)
                (start + timeout) polls h) [
                  | inl (e, met) ↦ inl (
                    rw (away, q) e,
                    inr (Exists-map _ _ polls (λ x p. ==_eq x.state.system.mode target p) met),
                  )
                  | inr (x, e) ↦ inr (x, rw (away, q) e)
                ]
        ]
      ]
    where
      awaits : TransitionId → Poll Sender → String
      awaits id poll = "transition " <> debug_transition_id id <> " to " <> debug_mode target

  pub transition_to_ok :
      (s asked : ServiceState Sender) (target : SystemMode) (timeout : Duration) (start : Instant)
      (polls : List (Poll Sender))
      → (transition_to try_send s asked target timeout start polls).1 ≡ some (ok tt)
      → (s.system.mode ≡ target) ⊎ Exists (λ poll. poll.state.system.mode ≡ target) polls
  unfolding transition_to
  transition_to_ok s asked target timeout start polls h =
      elim (Bool-cases (s.system.mode == target)) [
        | inl there ↦ inl (==_eq s.system.mode target there)
        | inr away ↦ elim (Result-cases (request_mode try_send asked target).1) [
          | inr (e, q) ↦ absurd (ground (arith, away, q, h))
          | inl (id, q) ↦ inr (
              Exists-map _ _ polls (λ x p. ==_eq x.state.system.mode target p)
                (poll_until_met (λ poll. poll.state.system.mode == target) (awaits id)
                  (start + timeout) polls (ground (arith, away, q, h))))
        ]
      ]
    where
      awaits : TransitionId → Poll Sender → String
      awaits id poll = "transition " <> debug_transition_id id <> " to " <> debug_mode target

  pub expect_rejected_transition_ends :
      (s asked last : ServiceState Sender) (target : SystemMode) (timeout : Duration)
      (start : Instant) (polls : List (Poll Sender))
      → Exists (λ poll. start + timeout ≤ poll.checked) polls
      → (r : Result (Unit {0}) AutoDemoError) × ((expect_rejected_transition try_send s asked target
            timeout start polls last).1
          ≡ some r)
  unfolding expect_rejected_transition
  expect_rejected_transition_ends s asked last target timeout start polls h =
      elim (Result-cases (request_mode try_send asked target).1) [
        | inr (e, q) ↦ (err (service e), ground (arith, q))
        | inl (id, q) ↦
            let (r, p) = poll_until_ends over (rejects id) (start + timeout) polls h in
            elim (Result-cases r) [
              | inr (x, p') ↦ (err x, ground (arith, q, p, p'))
              | inl (_, p') ↦
                  (check_retained try_send s.system.mode id last, ground (arith, q, p, p'))
            ]
      ]
    where
      over : Poll Sender → Bool
      over poll = not (transition_in_progress poll.state)

      rejects : TransitionId → Poll Sender → String
      rejects id poll = "rejection of transition " <> debug_transition_id id

  -- When the demo has seen the rejection it expects, its request was accepted, the transition was over
  -- at some round, and the mode is the one from before.
  pub expect_rejected_transition_ok :
      (s asked last : ServiceState Sender) (target : SystemMode) (timeout : Duration)
      (start : Instant) (polls : List (Poll Sender))
      → (expect_rejected_transition try_send s asked target timeout start polls last).1
        ≡ some (ok tt)
      → ((id : TransitionId) × ((request_mode try_send asked target).1 ≡ ok id))
        × Exists (λ poll. transition_in_progress poll.state ≡ false) polls
        × (last.system.mode ≡ s.system.mode)
  unfolding expect_rejected_transition check_retained
  expect_rejected_transition_ok s asked last target timeout start polls h =
      let over : Poll Sender → Bool = λ poll. not (transition_in_progress poll.state) in
      elim (Result-cases (request_mode try_send asked target).1) [
        | inr (x, q) ↦ absurd (ground (arith, q, h))
        | inl (id, q) ↦
            let waited = poll_until over (rejects id) (start + timeout) polls in
            elim (Option-cases waited) [
              | inl p ↦ absurd (ground (arith, q, p, h))
              | inr (r, p) ↦ elim (Result-cases r) [
                | inr (x, p') ↦ absurd (ground (arith, q, p, p', h))
                | inl (_, p') ↦ (
                  (id, q),
                  Exists-map _ _ polls (λ x k. ground (arith, k))
                      (poll_until_met over (rejects id) (start + timeout) polls (p ∙ ap some p')),
                  ground (arith, q, p, p', h, ==_eq last.system.mode s.system.mode),
                )
              ]
            ]
      ]
    where
      rejects : TransitionId → Poll Sender → String
      rejects id poll = "rejection of transition " <> debug_transition_id id
