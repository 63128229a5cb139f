-- ===== src/AutoDemo/Ends.antt =====
-- The automatic demo does not wait for ever.
use rust_state_machine_cowbo.Prelude.{
  ℕ, suc, ◌+◌, ◌≤◌, Bool, true, false, List, [], ◌∷◌, Option, none, some, Result, ok, err, Exists,
  ◌≡◌, refl, inl, inr, arith, if◌then◌else◌,
}
use rust_state_machine_cowbo.Protocol.{SystemMode, standby, working, SamToApplication}
use rust_state_machine_cowbo.AutoDemo.{AutoDemoConfig, AutoDemoError}
use rust_state_machine_cowbo.AutoDemo.Waiting.{
  wait_for_applications, wait_for_application, wait_for_health,
}
use rust_state_machine_cowbo.AutoDemo.Deadline.{
  poll_until_ends, transition_to_ends, expect_rejected_transition_ends,
}
use rust_state_machine_cowbo.AutoDemo.Stages.{
  Look, Stages, ◌>>>◌, transition_at, telemetry_at, run_showcase, transitions, run_auto_demo,
}

module _ {Sender : Type 0} where
  abbrev pub Ended : Stages Sender → Type 0
  Ended x = (r : Result (Unit {0}) AutoDemoError) × (x.1 ≡ some r)

  >>>_ends : (x next : Stages Sender) → Ended x → Ended next → Ended (x >>> next)
  unfolding ◌>>>◌
  >>>_ends (states, none) next (r, e) ended = absurd (ground (arith, e))
  >>>_ends (states, some (err e)) next h ended = (err e, refl)
  >>>_ends (states, some (ok _)) next h ended = ended

  if_ends : (b : Bool) (x y : Stages Sender) → Ended x → Ended y → Ended (if b then x else y)
  if_ends true x y h k = h
  if_ends false x y h k = k

module _ {Sender : Type 0} (try_send : Sender → SamToApplication → Option Sender)
    (config : AutoDemoConfig) where
  -- The clock passes the deadline of the stage at some round.
  abbrev pub IsLate : Look Sender → Type 0
  IsLate look = Exists (λ poll. look.start + config.timeout ≤ poll.checked) look.polls

  transition_at_ends :
      (target : SystemMode) (look : Look Sender)
      → IsLate look
      → Ended (transition_at try_send config look target)
  transition_at_ends target look late =
      elim (transition_to_ends try_send look.state look.asked target config.timeout look.start
        look.polls late) [ inl (e, _) ↦ (ok tt, e) | inr (x, e) ↦ (err x, e) ]

  telemetry_at_ends :
      (connected synchronized : Bool) (look : Look Sender)
      → IsLate look
      → Ended (telemetry_at try_send config look connected synchronized)
  unfolding wait_for_application
  telemetry_at_ends connected synchronized look late =
      poll_until_ends _ _ (look.start + config.timeout) look.polls late

  transitions_ends :
      (targets : List SystemMode) (look : ℕ → Look Sender)
      → ((n : ℕ) → IsLate (look n))
      → Ended (transitions try_send config targets look)
  unfolding transitions
  transitions_ends [] look late = (ok tt, refl)
  transitions_ends (target ∷ targets) look late =
      >>>_ends _ _ (transition_at_ends target (look 0) (late 0))
        (transitions_ends targets (λ n. look (suc n)) (λ n. late (suc n)))

  run_showcase_ends :
      (look : ℕ → Look Sender)
      → ((n : ℕ) → IsLate (look n))
      → Ended (run_showcase try_send config look)
  unfolding run_showcase wait_for_health
  run_showcase_ends look late = >>>_ends _ _ (transition_at_ends standby (look 0) (late 0)) (
      >>>_ends _ _ (telemetry_at_ends false false (look 1) (late 1)) (
        >>>_ends _ _ (poll_until_ends _ _ ((look 2).start + config.timeout) (look 2).polls (late 2))
          (>>>_ends _ _ (telemetry_at_ends true true (look 3) (late 3)) (
            >>>_ends _ _
              (poll_until_ends _ _ ((look 4).start + config.timeout) (look 4).polls (late 4))
              (>>>_ends _ _
                (expect_rejected_transition_ends try_send (look 5).state (look 5).asked
                  (look 5).last working config.timeout (look 5).start (look 5).polls (late 5))
                (>>>_ends _ _ (transition_at_ends working (look 6) (late 6))
                  (transition_at_ends standby (look 7) (late 7))))))))

  -- If at each stage the clock passes the deadline of the stage at some round, the automatic demo
  -- returns, with or without an error.
  pub run_auto_demo_ends :
      (look : ℕ → Look Sender)
      → ((n : ℕ) → Exists (λ poll. (look n).start + config.timeout ≤ poll.checked) (look n).polls)
      → (r : Result (Unit {0}) AutoDemoError) × ((run_auto_demo try_send config look).1 ≡ some r)
  unfolding run_auto_demo wait_for_applications
  run_auto_demo_ends look late =
      let rest : ℕ → Look Sender = λ n. look (suc n) in
      >>>_ends _ _ (poll_until_ends _ _ ((look 0).start + config.timeout) (look 0).polls (late 0)) (
        if_ends config.showcase _ _ (run_showcase_ends rest (λ n. late (suc n)))
          (transitions_ends (standby ∷ working ∷ standby ∷ []) rest (λ n. late (suc n))))
