-- ===== src/Client/Synchronized.antt =====
-- The mode of an application that has joined SAM.
use rust_state_machine_cowbo.Prelude.{
  ℕ, List, [], ◌∷◌, none, Result, ok, err, ◌==◌, ==_eq, ◌≡◌, refl, sym, ap, ◌∙◌, arith, Bool-cases,
  Result-cases, inl, inr, nat_eq,
}
use rust_state_machine_cowbo.Protocol.{
  SystemMode, HealthState, ApplicationId, ApplicationToSam, SamToApplication, register_accepted,
  register_rejected, prepare_mode, commit_mode, abort_mode, state_broadcast, protocol_version,
  mode_eq,
}
use rust_state_machine_cowbo.Transport.Error.{TransportError}
use rust_state_machine_cowbo.Client.Handler.{ModeHandler, TakesOnModes}
use rust_state_machine_cowbo.Client.Runtime.{
  LoopEvent, heartbeat_tick, incoming, inbound_closed, on_prepare, on_commit, on_message, on_event,
  on_registration, session_loop,
}
use rust_state_machine_cowbo.Client.Answers.{session_continues}

-- The mode that SAM has committed last, from `mode` on.
abbrev pub last_commit : {E : Type 0} → SystemMode → List (LoopEvent E) → SystemMode
last_commit mode [] = mode
last_commit mode (incoming (ok (commit_mode id new_mode)) ∷ es) = last_commit new_mode es
last_commit mode (_ ∷ es) = last_commit mode es

module _ {H W E : Type 0} (handler : ModeHandler H)
    (send : W → ApplicationToSam → W × Result (Unit {0}) (TransportError E))
    (application : ApplicationId) where
  on_message-current_mode :
      (w : W) (h : H) (m : SamToApplication) (es : List (LoopEvent E))
      → TakesOnModes handler
      → (on_message handler send application w h m).1 ≡ ok tt
      → last_commit (handler.current_mode (on_message handler send application w h m).0.1) es
        ≡ last_commit (handler.current_mode h) (incoming (ok m) ∷ es)
  unfolding on_message on_prepare on_commit
  on_message-current_mode w h (prepare_mode id mode) es law k =
      ap (λ m. last_commit m es)
        (elim (Result-cases (handler.prepare_mode h mode).1) [
          | inl (_, q) ↦ ground (arith, q, law.prepared h mode)
          | inr (_, q) ↦ ground (arith, q, law.prepared h mode)
        ])
  on_message-current_mode w h (commit_mode id mode) es law k =
      ap (λ m. last_commit m es)
        (elim (Result-cases (handler.commit_mode h mode).1) [
          | inl (_, q) ↦ ground (arith, q, law.committed h mode)
          | inr (_, q) ↦ ground (arith, q)
        ])
  on_message-current_mode w h (abort_mode id) es law k =
      ap (λ m. last_commit m es) (law.aborted h id)
  on_message-current_mode w h (state_broadcast mode reported) es law k =
      ap (λ m. last_commit m es) (law.informed h mode reported)
  on_message-current_mode w h (register_accepted v mode reported) es law k = cc
  on_message-current_mode w h (register_rejected v reason) es law k = cc

  session_loop-current_mode :
      (w : W) (h : H) (es : List (LoopEvent E))
      → TakesOnModes handler
      → (session_loop handler send application w h es).1 ≡ none
      → handler.current_mode (session_loop handler send application w h es).0.1
        ≡ last_commit (handler.current_mode h) es
  unfolding session_loop on_event
  session_loop-current_mode w h [] law k = refl
  session_loop-current_mode w h (e ∷ es) law k =
      let (answered, next) = session_continues handler send application w h e es k in
      let done = on_event handler send application w h e in
      ap (λ r. handler.current_mode r.0.1) next
      ∙ session_loop-current_mode done.0.0 done.0.1 es law (sym (ap (λ r. r.1) next) ∙ k)
      ∙ go e answered
    where
      go :
          (e' : LoopEvent E)
          → (on_event handler send application w h e').1 ≡ ok tt
          → last_commit (handler.current_mode (on_event handler send application w h e').0.1) es
            ≡ last_commit (handler.current_mode h) (e' ∷ es)
      go heartbeat_tick a = refl
      go (incoming (ok m)) a = on_message-current_mode w h m es law a
      go (incoming (err x)) a = cc
      go inbound_closed a = cc

  on_registration-current_mode :
      (h : H) (version : ℕ) (mode : SystemMode) (reported : HealthState) {h' : H}
      → TakesOnModes handler
      → on_registration handler send application h (register_accepted version mode reported)
        ≡ (h', ok tt)
      → (version ≡ protocol_version) × (handler.current_mode h' ≡ mode)
  unfolding on_registration
  on_registration-current_mode h version mode reported law k =
      elim (Bool-cases (handler.current_mode h == mode)) [
        | inl same ↦
            ground
              (arith, same, ==_eq (handler.current_mode h) mode same, law.informed h mode reported)
        | inr other ↦ elim (Result-cases (handler.synchronize_mode h mode).1) [
          | inl (_, q) ↦ ground (
            arith,
            other,
            q,
            law.informed (handler.synchronize_mode h mode).0 mode reported,
            law.synchronized h mode,
          )
          | inr (_, q) ↦ ground (arith, other, q)
        ]
      ]

  -- An application that SAM has accepted speaks SAM's version of the protocol, and while its session
  -- goes on its mode is the one that SAM has committed last, or named in its acceptance.
  pub session-current_mode :
      (h : H) (w : W) (version : ℕ) (mode : SystemMode) (reported : HealthState)
      (es : List (LoopEvent E)) {h' : H}
      → TakesOnModes handler
      → on_registration handler send application h (register_accepted version mode reported)
        ≡ (h', ok tt)
      → (session_loop handler send application w h' es).1 ≡ none
      → (version ≡ protocol_version)
        × (handler.current_mode (session_loop handler send application w h' es).0.1
            ≡ last_commit mode es)
  session-current_mode h w version mode reported es {h'} law j k =
      let (v, m) = on_registration-current_mode h version mode reported law j in
      (v, session_loop-current_mode w h' es law k ∙ ap (λ x. last_commit x es) m)
