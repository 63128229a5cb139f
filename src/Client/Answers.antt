-- ===== src/Client/Answers.antt =====
-- What a session sends, compared with what it receives.
use rust_state_machine_cowbo.Prelude.{
  append_assoc, append_nil, map_err_ok, String, List, [], ◌∷◌, ◌++◌, none, Result, ok, err, ◌≡◌,
  sym, ap, ◌∙◌, arith, Result-cases, inl, inr,
}
use rust_state_machine_cowbo.Protocol.{
  SystemMode, HealthState, ApplicationId, TransitionId, ApplicationToSam, SamToApplication,
  register_accepted, register_rejected, prepare_mode, commit_mode, abort_mode, state_broadcast,
}
use rust_state_machine_cowbo.Transport.Error.{TransportError}
use rust_state_machine_cowbo.Client.Handler.{ModeHandler}
use rust_state_machine_cowbo.Client.Messages.{heartbeat, mode_ready, mode_rejected, mode_committed}
use rust_state_machine_cowbo.Client.Runtime.{
  LoopEvent, heartbeat_tick, incoming, inbound_closed, on_prepare, on_commit, on_message, on_event,
  session_loop,
}

-- The protocol of an application: a heartbeat at each tick, one answer to each `PrepareMode` and a
-- confirmation of each `CommitMode`, by the name and the transition id in question, and nothing else.
pub data Answers {E : Type 0} (application : ApplicationId)
    : List (LoopEvent E) → List ApplicationToSam → Type 0 where
  idle : Answers application [] []
  beats :
      (reported : HealthState) (mode : SystemMode) {es : List (LoopEvent E)}
      {ms : List ApplicationToSam}
      → Answers application es ms
      → Answers application
          (heartbeat_tick ∷ es)
          (ApplicationToSam.heartbeat application reported mode ∷ ms)
  approves :
      (id : TransitionId) (mode : SystemMode) {es : List (LoopEvent E)} {ms : List ApplicationToSam}
      → Answers application es ms
      → Answers application
          (incoming (ok (prepare_mode id mode)) ∷ es)
          (ApplicationToSam.mode_ready application id ∷ ms)
  rejects :
      (id : TransitionId) (mode : SystemMode) (reason : String) {es : List (LoopEvent E)}
      {ms : List ApplicationToSam}
      → Answers application es ms
      → Answers application
          (incoming (ok (prepare_mode id mode)) ∷ es)
          (ApplicationToSam.mode_rejected application id reason ∷ ms)
  confirms :
      (id : TransitionId) (mode : SystemMode) {es : List (LoopEvent E)} {ms : List ApplicationToSam}
      → Answers application es ms
      → Answers application
          (incoming (ok (commit_mode id mode)) ∷ es)
          (ApplicationToSam.mode_committed application id mode ∷ ms)
  hears_abort :
      (id : TransitionId) {es : List (LoopEvent E)} {ms : List ApplicationToSam}
      → Answers application es ms
      → Answers application (incoming (ok (abort_mode id)) ∷ es) ms
  hears_state :
      (mode : SystemMode) (reported : HealthState) {es : List (LoopEvent E)}
      {ms : List ApplicationToSam}
      → Answers application es ms
      → Answers application (incoming (ok (state_broadcast mode reported)) ∷ es) ms

-- A sender that keeps what it has sent.
abbrev pub Logs :
    {W E : Type 0}
    → (W → ApplicationToSam → W × Result (Unit {0}) (TransportError E))
    → (W → List ApplicationToSam)
    → Type 0
Logs {W} send log =
    (w : W) (m : ApplicationToSam) → (send w m).1 ≡ ok tt → log (send w m).0 ≡ log w ++ (m ∷ [])

module _ {H W E : Type 0} (handler : ModeHandler H)
    (send : W → ApplicationToSam → W × Result (Unit {0}) (TransportError E))
    (application : ApplicationId) where
  pub session_continues :
      (w : W) (h : H) (e : LoopEvent E) (es : List (LoopEvent E))
      → (session_loop handler send application w h (e ∷ es)).1 ≡ none
      → ((on_event handler send application w h e).1 ≡ ok tt)
        × (session_loop handler send application w h (e ∷ es)
            ≡ session_loop handler send application
                (on_event handler send application w h e).0.0
                (on_event handler send application w h e).0.1
                es)
  unfolding session_loop
  session_continues w h e es k = elim (Result-cases (on_event handler send application w h e).1) [
    | inl (_, q) ↦ ground (arith, q)
    | inr (x, q) ↦ ground (arith, q)
  ]

  -- The messages that one event makes a session send.
  Answered : (W → List ApplicationToSam) → W → W → LoopEvent E → Type 0
  Answered log w w' e =
      (new : List ApplicationToSam) × (log w' ≡ log w ++ new)
      × ((es : List (LoopEvent E)) (ms : List ApplicationToSam)
          → Answers application es ms
          → Answers application (e ∷ es) (new ++ ms))

  on_message-Answered :
      (log : W → List ApplicationToSam) (w : W) (h : H) (m : SamToApplication)
      → Logs send log
      → (on_message handler send application w h m).1 ≡ ok tt
      → Answered log w (on_message handler send application w h m).0.0 (incoming (ok m))
  unfolding on_message on_prepare on_commit mode_ready mode_rejected mode_committed Answered
  on_message-Answered log w h (prepare_mode id mode) law k =
      elim (Result-cases (handler.prepare_mode h mode).1) [
        | inl (_, q) ↦ (
          ApplicationToSam.mode_ready application id ∷ [],
          ground (arith, q, law w (ApplicationToSam.mode_ready application id)),
          λ es ms a. approves id mode a,
        )
        | inr (reason, q) ↦ (
          ApplicationToSam.mode_rejected application id reason ∷ [],
          ground (arith, q, law w (ApplicationToSam.mode_rejected application id reason)),
          λ es ms a. rejects id mode reason a,
        )
      ]
  on_message-Answered log w h (commit_mode id mode) law k =
      elim (Result-cases (handler.commit_mode h mode).1) [
        | inl (_, q) ↦ (
          ApplicationToSam.mode_committed application id mode ∷ [],
          ground (arith, q, law w (ApplicationToSam.mode_committed application id mode)),
          λ es ms a. confirms id mode a,
        )
        | inr (reason, q) ↦ ground (arith, q)
      ]
  on_message-Answered log w h (abort_mode id) law k =
      ([], sym (append_nil (log w)), λ es ms a. hears_abort id a)
  on_message-Answered log w h (state_broadcast mode reported) law k =
      ([], sym (append_nil (log w)), λ es ms a. hears_state mode reported a)
  on_message-Answered log w h (register_accepted v mode reported) law k = cc
  on_message-Answered log w h (register_rejected v reason) law k = cc

  on_event-Answered :
      (log : W → List ApplicationToSam) (w : W) (h : H) (e : LoopEvent E)
      → Logs send log
      → (on_event handler send application w h e).1 ≡ ok tt
      → Answered log w (on_event handler send application w h e).0.0 e
  unfolding on_event heartbeat Answered
  on_event-Answered log w h heartbeat_tick law k = (
    ApplicationToSam.heartbeat application (handler.health h) (handler.current_mode h) ∷ [],
    law w _ (map_err_ok _ _ k),
    λ es ms a. beats _ _ a,
  )
  on_event-Answered log w h (incoming (ok m)) law k = on_message-Answered log w h m law k
  on_event-Answered log w h (incoming (err e)) law k = cc
  on_event-Answered log w h inbound_closed law k = cc

  -- While a session goes on, it has sent exactly a heartbeat at each tick, one answer to each
  -- `PrepareMode` and a confirmation of each `CommitMode`, in order, each with the id that was asked.
  pub session_loop-Answers :
      (log : W → List ApplicationToSam) (w : W) (h : H) (es : List (LoopEvent E))
      → Logs send log
      → (session_loop handler send application w h es).1 ≡ none
      → (ms : List ApplicationToSam) × (log (session_loop handler send application w h es).0.0
          ≡ log w ++ ms)
        × Answers application es ms
  unfolding session_loop Answered
  session_loop-Answers log w h [] law k = ([], sym (append_nil (log w)), idle)
  session_loop-Answers log w h (e ∷ es) law k =
      let (answered, next) = session_continues w h e es k in
      let (new, logged, adds) = on_event-Answered log w h e law answered in
      let done = on_event handler send application w h e in
      let (ms, logged', a) =
        session_loop-Answers log done.0.0 done.0.1 es law (sym (ap (λ r. r.1) next) ∙ k) in
      (
        new ++ ms,
        ap (λ r. log r.0.0) next ∙ logged' ∙ ap (λ l. l ++ ms) logged ∙ append_assoc (log w) new ms,
        adds es ms a,
      )
