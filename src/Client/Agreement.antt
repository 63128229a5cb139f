-- ===== src/Client/Agreement.antt =====
-- The sessions of the applications and the mode manager, put together.
use rust_state_machine_cowbo.Prelude.{
  List, [], ◌∷◌, ◌++◌, Result, ok, ◌≡◌, refl, ap, ap₂, ◌∙◌, arith,
}
use rust_state_machine_cowbo.Protocol.{
  SystemMode, ApplicationId, TransitionId, ApplicationToSam, prepare_mode, commit_mode,
}
use rust_state_machine_cowbo.Core.Mode.{
  ModeManager, stable, request_transition, Operation, ready, rejected, committed, run,
}
use rust_state_machine_cowbo.Core.Mode.Completion.{readies, commits, IsCovered, all_agree_complete}
use rust_state_machine_cowbo.Transport.Error.{TransportError}
use rust_state_machine_cowbo.Client.Handler.{ModeHandler}
use rust_state_machine_cowbo.Client.Messages.{mode_ready, mode_committed}
use rust_state_machine_cowbo.Client.Runtime.{
  incoming, on_prepare, on_commit, on_message, on_event, session_loop,
}

-- The operations on the mode manager that the messages ask for.
unfoldable pub operations : List ApplicationToSam → List Operation
operations [] = []
operations (ApplicationToSam.register a v ∷ ms) = operations ms
operations (ApplicationToSam.heartbeat a h mode ∷ ms) = operations ms
operations (ApplicationToSam.mode_ready a i ∷ ms) = ready a i ∷ operations ms
operations (ApplicationToSam.mode_rejected a i reason ∷ ms) = rejected a i reason ∷ operations ms
operations (ApplicationToSam.mode_committed a i mode ∷ ms) = committed a i mode ∷ operations ms

-- A sender that keeps the messages.
abbrev pub keep :
    {E : Type 0}
    → List ApplicationToSam
    → ApplicationToSam
    → List ApplicationToSam × Result (Unit {0}) (TransportError E)
keep log message = (log ++ message ∷ [], ok tt)

-- What several applications send, one after the other.
unfoldable pub replies :
    (ApplicationId → List ApplicationToSam) → List ApplicationId → List ApplicationToSam
replies reply [] = []
replies reply (a ∷ apps) = reply a ++ replies reply apps

operations-append :
    (ms ns : List ApplicationToSam) → operations (ms ++ ns) ≡ operations ms ++ operations ns
unfolding operations
operations-append [] ns = refl
operations-append (ApplicationToSam.register a v ∷ ms) ns = operations-append ms ns
operations-append (ApplicationToSam.heartbeat a h mode ∷ ms) ns = operations-append ms ns
operations-append (ApplicationToSam.mode_ready a i ∷ ms) ns =
    ap (λ os. ready a i ∷ os) (operations-append ms ns)
operations-append (ApplicationToSam.mode_rejected a i reason ∷ ms) ns =
    ap (λ os. rejected a i reason ∷ os) (operations-append ms ns)
operations-append (ApplicationToSam.mode_committed a i mode ∷ ms) ns =
    ap (λ os. committed a i mode ∷ os) (operations-append ms ns)

module _ {H : Type 0} (E : Type 0) (handler : ModeHandler H) where
  -- What the session of an application sends when one message comes in.
  abbrev pub reply_to_prepare :
      (ApplicationId → H) → TransitionId → SystemMode → ApplicationId → List ApplicationToSam
  reply_to_prepare handlers i target a =
      (session_loop {E = E} handler keep a [] (handlers a)
        (incoming (ok (prepare_mode i target)) ∷ [])).0.0

  abbrev pub reply_to_commit :
      (ApplicationId → H) → TransitionId → SystemMode → ApplicationId → List ApplicationToSam
  reply_to_commit handlers i target a =
      (session_loop {E = E} handler keep a [] (handler.prepare_mode (handlers a) target).0
        (incoming (ok (commit_mode i target)) ∷ [])).0.0

  reply_to_prepare_lem :
      (handlers : ApplicationId → H) (i : TransitionId) (target : SystemMode) (a : ApplicationId)
      → (handler.prepare_mode (handlers a) target).1 ≡ ok tt
      → reply_to_prepare handlers i target a ≡ ApplicationToSam.mode_ready a i ∷ []
  unfolding session_loop on_event on_message on_prepare mode_ready
  reply_to_prepare_lem handlers i target a h = ground (arith, h)

  reply_to_commit_lem :
      (handlers : ApplicationId → H) (i : TransitionId) (target : SystemMode) (a : ApplicationId)
      → (handler.commit_mode (handler.prepare_mode (handlers a) target).0 target).1 ≡ ok tt
      → reply_to_commit handlers i target a ≡ ApplicationToSam.mode_committed a i target ∷ []
  unfolding session_loop on_event on_message on_commit mode_committed
  reply_to_commit_lem handlers i target a h = ground (arith, h)

  replies_to_prepare :
      (handlers : ApplicationId → H) (i : TransitionId) (target : SystemMode)
      (apps : List ApplicationId)
      → ((a : ApplicationId) → (handler.prepare_mode (handlers a) target).1 ≡ ok tt)
      → operations (replies (reply_to_prepare handlers i target) apps) ≡ readies i apps
  unfolding operations replies
  replies_to_prepare handlers i target [] h = refl
  replies_to_prepare handlers i target (a ∷ apps) h =
      let rest = replies (reply_to_prepare handlers i target) apps in
      ap (λ ms. operations (ms ++ rest)) (reply_to_prepare_lem handlers i target a (h a))
      ∙ ap (λ os. ready a i ∷ os) (replies_to_prepare handlers i target apps h)

  replies_to_commit :
      (handlers : ApplicationId → H) (i : TransitionId) (target : SystemMode)
      (apps : List ApplicationId)
      → ((a : ApplicationId)
          → (handler.commit_mode (handler.prepare_mode (handlers a) target).0 target).1 ≡ ok tt)
      → operations (replies (reply_to_commit handlers i target) apps) ≡ commits i target apps
  unfolding operations replies
  replies_to_commit handlers i target [] h = refl
  replies_to_commit handlers i target (a ∷ apps) h =
      let rest = replies (reply_to_commit handlers i target) apps in
      ap (λ ms. operations (ms ++ rest)) (reply_to_commit_lem handlers i target a (h a))
      ∙ ap (λ os. committed a i target ∷ os) (replies_to_commit handlers i target apps h)

  -- If SAM's request for a mode is accepted and the handler of each application prepares and commits
  -- it, then the answers of their sessions, in any order that has all participants in each phase,
  -- bring the mode manager to rest in the requested mode.
  pub sessions_reach_agreement :
      (handlers : ApplicationId → H) (m : ModeManager) (target : SystemMode)
      (ps xs ys : List ApplicationId) {i : TransitionId}
      → (request_transition m target ps).1 ≡ ok i
      → IsCovered ps xs
      → IsCovered ps ys
      → ((a : ApplicationId) → (handler.prepare_mode (handlers a) target).1 ≡ ok tt)
      → ((a : ApplicationId)
          → (handler.commit_mode (handler.prepare_mode (handlers a) target).0 target).1 ≡ ok tt)
      → (run (request_transition m target ps).0 (
          operations (
            replies (reply_to_prepare handlers i target) xs
            ++ replies (reply_to_commit handlers i target) ys))).state
        ≡ stable target
  sessions_reach_agreement handlers m target ps xs ys {i} h cx cy p c =
      let e =
        operations-append (replies (reply_to_prepare handlers i target) xs)
          (replies (reply_to_commit handlers i target) ys)
        ∙ ap₂ (λ os os'. os ++ os') (replies_to_prepare handlers i target xs p)
            (replies_to_commit handlers i target ys c) in
      ap (λ os. (run (request_transition m target ps).0 os).state) e
      ∙ all_agree_complete m target ps xs ys h cx cy
