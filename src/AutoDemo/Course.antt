-- ===== src/AutoDemo/Course.antt =====
-- What the success of the automatic demo shows.
use rust_state_machine_cowbo.Prelude.{
  ℕ, suc, ◌+◌, ◌≤◌, String, Bool, true, false, not, ◌&&◌, ◌||◌, List, [], ◌∷◌, Option, none, some,
  ok, err, ◌==◌, ==_eq, string_eq, Exists, ◌≡◌, refl, ◌⊎◌, inl, inr, arith, Bool-cases,
  if◌then◌else◌,
}
use rust_state_machine_cowbo.Protocol.{
  SystemMode, standby, working, HealthState, healthy, failed, TransitionId, SamToApplication,
  mode_eq, health_eq,
}
use rust_state_machine_cowbo.Core.Registry.{Instant}
use rust_state_machine_cowbo.Core.Health.{Duration}
use rust_state_machine_cowbo.Service.State.{transition_in_progress}
use rust_state_machine_cowbo.Service.Methods.{request_mode}
use rust_state_machine_cowbo.Service.Snapshot.{ApplicationSnapshot, applications}
use rust_state_machine_cowbo.AutoDemo.{AutoDemoConfig}
use rust_state_machine_cowbo.AutoDemo.Waiting.{
  Poll, ready, any, wait_for_applications, wait_for_application, wait_for_health,
  expect_rejected_transition,
}
use rust_state_machine_cowbo.AutoDemo.Deadline.{
  Exists-map, poll_until_met, transition_to_ok, expect_rejected_transition_ok,
}
use rust_state_machine_cowbo.AutoDemo.Stages.{
  Look, Stages, watch, request, ◌>>>◌, transition_at, telemetry_at, run_showcase, transitions,
  run_auto_demo,
}

any-true :
    (test : ApplicationSnapshot → Bool) (xs : List ApplicationSnapshot)
    → any test xs ≡ true
    → Exists (λ x. test x ≡ true) xs
unfolding any
any-true test [] h = absurd (ground (arith, h))
any-true test (x ∷ xs) h = elim (Bool-cases (test x)) [
  | inl p ↦ inl p
  | inr p ↦ inr (any-true test xs (ground (arith, p, h)))
]

listed :
    (name : String) (connected synchronized : Bool) (x : ApplicationSnapshot)
    → (x.application == name
        && (if connected then x.connected else not x.connected)
        && (not synchronized || x.synchronized))
      ≡ true
    → (x.application ≡ name)
      × (x.connected ≡ connected)
      × ((synchronized ≡ false) ⊎ (x.synchronized ≡ true))
listed name true true x h = ground (arith, h, ==_eq x.application name)
listed name true false x h = ground (arith, h, ==_eq x.application name)
listed name false true x h = ground (arith, h, ==_eq x.application name)
listed name false false x h = ground (arith, h, ==_eq x.application name)

module _ {Sender : Type 0} where
  -- The mode is the target at the start of a stage or at one of its looks.
  abbrev pub Moved : SystemMode → Look Sender → Type 0
  Moved target look =
      (look.state.system.mode ≡ target)
      ⊎ Exists (λ poll. poll.state.system.mode ≡ target) look.polls

  -- An application is listed with this connection, and, if that is asked, as synchronized.
  abbrev pub Listed : String → (connected synchronized : Bool) → Poll Sender → Type 0
  Listed name connected synchronized poll =
      Exists
        (λ application.
          (application.application ≡ name)
          × (application.connected ≡ connected)
          × ((synchronized ≡ false) ⊎ (application.synchronized ≡ true)))
        (applications poll.state poll.now)

  abbrev pub HasHealth : HealthState → Look Sender → Type 0
  HasHealth health look = Exists (λ poll. poll.state.system.health ≡ health) look.polls

  wait_for_application_ok :
      (name : String) (connected synchronized : Bool) (timeout : Duration) (start : Instant)
      (polls : List (Poll Sender))
      → wait_for_application name connected synchronized timeout start polls ≡ some (ok tt)
      → Exists (Listed name connected synchronized) polls
  unfolding wait_for_application
  wait_for_application_ok name connected synchronized timeout start polls h =
      Exists-map _ _ polls
        (λ poll p.
          Exists-map _ _ (applications poll.state poll.now) (listed name connected synchronized)
            (any-true _ (applications poll.state poll.now) p))
        (poll_until_met _ _ (start + timeout) polls h)

  wait_for_health_ok :
      (expected : HealthState) (timeout : Duration) (start : Instant) (polls : List (Poll Sender))
      → wait_for_health expected timeout start polls ≡ some (ok tt)
      → Exists (λ poll. poll.state.system.health ≡ expected) polls
  unfolding wait_for_health
  wait_for_health_ok expected timeout start polls h =
      Exists-map _ _ polls (λ poll p. ==_eq poll.state.system.health expected p)
        (poll_until_met _ _ (start + timeout) polls h)

  wait_for_applications_ok :
      (expected : ℕ) (timeout : Duration) (start : Instant) (polls : List (Poll Sender))
      → wait_for_applications expected timeout start polls ≡ some (ok tt)
      → Exists (λ poll. expected ≤ ready poll) polls
  unfolding wait_for_applications
  wait_for_applications_ok expected timeout start polls h =
      Exists-map _ _ polls (λ poll p. ground (arith, p))
        (poll_until_met _ _ (start + timeout) polls h)

  >>>_ok :
      (x next : Stages Sender)
      → (x >>> next).1 ≡ some (ok tt)
      → (x.1 ≡ some (ok tt)) × (next.1 ≡ some (ok tt))
  unfolding ◌>>>◌
  >>>_ok (states, none) next h = ground (arith, h)
  >>>_ok (states, some (err e)) next h = ground (arith, h)
  >>>_ok (states, some (ok tt)) next h = (refl, h)

-- What happened when the demo succeeds.
module _ {Sender : Type 0} (try_send : Sender → SamToApplication → Option Sender)
    (config : AutoDemoConfig) where
  -- The request was accepted, its transition was over at a look, and the mode was kept.
  abbrev pub Refused : SystemMode → Look Sender → Type 0
  Refused target look =
      ((id : TransitionId) × ((request_mode try_send look.asked target).1 ≡ ok id))
      × Exists (λ poll. transition_in_progress poll.state ≡ false) look.polls
      × (look.last.system.mode ≡ look.state.system.mode)

  abbrev pub Showcased : (ℕ → Look Sender) → Type 0
  Showcased look =
      Moved standby (look 0)
      × Exists (Listed "telemetry" false false) (look 1).polls
      × HasHealth failed (look 2)
      × Exists (Listed "telemetry" true true) (look 3).polls
      × HasHealth healthy (look 4)
      × Refused working (look 5)
      × Moved working (look 6)
      × Moved standby (look 7)

  abbrev pub AllMoved : List SystemMode → (ℕ → Look Sender) → Type 0
  AllMoved [] look = Unit
  AllMoved (target ∷ targets) look = Moved target (look 0) × AllMoved targets (λ n. look (suc n))

  transition_at_ok :
      (target : SystemMode) (look : Look Sender)
      → (transition_at try_send config look target).1 ≡ some (ok tt)
      → Moved target look
  transition_at_ok target look h =
      transition_to_ok try_send look.state look.asked target config.timeout look.start look.polls h

  transitions_ok :
      (targets : List SystemMode) (look : ℕ → Look Sender)
      → (transitions try_send config targets look).1 ≡ some (ok tt)
      → AllMoved targets look
  unfolding transitions
  transitions_ok [] look h = tt
  transitions_ok (target ∷ targets) look h =
      let (now, later) = >>>_ok (transition_at try_send config (look 0) target) _ h in
      (transition_at_ok target (look 0) now, transitions_ok targets (λ n. look (suc n)) later)

  run_showcase_ok :
      (look : ℕ → Look Sender)
      → (run_showcase try_send config look).1 ≡ some (ok tt)
      → Showcased look
  unfolding run_showcase
  run_showcase_ok look h =
      let (a, h) = >>>_ok (transition_at try_send config (look 0) standby) _ h in
      let (b, h) = >>>_ok (telemetry_at try_send config (look 1) false false) _ h in
      let (c, h) =
        >>>_ok (watch (wait_for_health failed config.timeout (look 2).start (look 2).polls)) _ h in
      let (d, h) = >>>_ok (telemetry_at try_send config (look 3) true true) _ h in
      let (e, h) =
        >>>_ok (watch (wait_for_health healthy config.timeout (look 4).start (look 4).polls)) _ h in
      let (f, h) =
        >>>_ok
          (request (
            expect_rejected_transition try_send (look 5).state (look 5).asked working config.timeout
              (look 5).start (look 5).polls (look 5).last))
          _ h in
      let (g, h) = >>>_ok (transition_at try_send config (look 6) working) _ h in
      (
        transition_at_ok standby (look 0) a,
        wait_for_application_ok "telemetry" false false config.timeout (look 1).start (look 1).polls
            b,
        wait_for_health_ok failed config.timeout (look 2).start (look 2).polls c,
        wait_for_application_ok "telemetry" true true config.timeout (look 3).start (look 3).polls
            d,
        wait_for_health_ok healthy config.timeout (look 4).start (look 4).polls e,
        expect_rejected_transition_ok try_send (look 5).state (look 5).asked (look 5).last working
            config.timeout (look 5).start (look 5).polls f,
        transition_at_ok working (look 6) g,
        transition_at_ok standby (look 7) h,
      )

  -- If the automatic demo succeeds, the expected number of applications was connected and in the mode
  -- of the system at some look, and after it: in the showcase, Standby was reached, telemetry was seen
  -- disconnected, the health Failed, telemetry connected and synchronized again, the health Healthy, a
  -- request for Working that was accepted ended in the mode from before, and Working and Standby were
  -- reached, each at its stage; and otherwise Standby, Working and Standby were reached.
  pub run_auto_demo_ok :
      (look : ℕ → Look Sender)
      → (run_auto_demo try_send config look).1 ≡ some (ok tt)
      → Exists (λ poll. config.expected_apps ≤ ready poll) (look 0).polls
        × (((config.showcase ≡ true) × Showcased (λ n. look (suc n)))
            ⊎ ((config.showcase ≡ false)
                × AllMoved (standby ∷ working ∷ standby ∷ []) (λ n. look (suc n))))
  unfolding run_auto_demo
  run_auto_demo_ok look h =
      let rest : ℕ → Look Sender = λ n. look (suc n) in
      let (seen, later) =
        >>>_ok
          (watch (
            wait_for_applications config.expected_apps config.timeout (look 0).start
              (look 0).polls))
          _ h in
      (
        wait_for_applications_ok config.expected_apps config.timeout (look 0).start (look 0).polls
            seen,
        elim (Bool-cases config.showcase) [
          | inl p ↦ inl (p, run_showcase_ok rest (ground (arith, p, later)))
          | inr p ↦
              inr (
                p,
                transitions_ok (standby ∷ working ∷ standby ∷ []) rest (ground (arith, p, later)),
              )
        ],
      )
