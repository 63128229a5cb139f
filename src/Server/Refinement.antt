-- ===== src/Server/Refinement.antt =====
-- A connection works on the service by the calls of its own application alone.
use rust_state_machine_cowbo.Prelude.{
  ℕ, List, [], ◌∷◌, Option, none, some, Result, ok, err, All, ◌==◌, nat_eq, ◌≡◌, refl, subst, ◌⊎◌,
  inl, inr, Result-cases, Option-cases, Bool-cases, arith,
}
use rust_state_machine_cowbo.Protocol.{
  ApplicationId, ApplicationToSam, SamToApplication, protocol_version,
}
use rust_state_machine_cowbo.Core.Registry.{Instant}
use rust_state_machine_cowbo.Transport.Error.{TransportError}
use rust_state_machine_cowbo.Service.State.{ServiceState, ConnectionId}
use rust_state_machine_cowbo.Service.Methods.{register, disconnect}
use rust_state_machine_cowbo.Service.Messages.{handle_message}
use rust_state_machine_cowbo.Service.Calls.{
  Call, registers, disconnects, messages, requests, refreshes, step, run,
}
use rust_state_machine_cowbo.Service.Reach.{
  Reached, Reached-refl, Reached-step, Reached-run, Reached-trans,
}
use rust_state_machine_cowbo.Server.{
  SessionEvent, outgoing, incoming, meanwhile, session_step, run_registered_session, reject,
  serve_registered, serve_connection,
}

-- A call that a session makes for its application.
abbrev pub IsCallOf : {Sender : Type 0} → ApplicationId → Call Sender → Type 0
IsCallOf a (registers b outbound now) = a ≡ b
IsCallOf a (disconnects b id now) = a ≡ b
IsCallOf a (messages b id message now) = a ≡ b
IsCallOf a (requests target) = ⊥
IsCallOf a (refreshes now) = ⊥

-- The other tasks make only calls of the kind `P`.
abbrev pub Meanwhile :
    {E Sender : Type 0} → (Call Sender → Type 0) → List (SessionEvent E Sender) → Type 0
Meanwhile P [] = Unit
Meanwhile P (meanwhile call ∷ events) = P call × Meanwhile P events
Meanwhile P (_ ∷ events) = Meanwhile P events

-- A call of the session of `a`, or one of another task.
abbrev Made : {Sender : Type 0} → (Call Sender → Type 0) → ApplicationId → Call Sender → Type 0
Made P a call = IsCallOf a call ⊎ P call

All-inr :
    {Sender : Type 0} (P : Call Sender → Type 0) (a : ApplicationId) (cs : List (Call Sender))
    → All P cs
    → All (Made P a) cs
All-inr P a [] h = tt
All-inr P a (c ∷ cs) h = (inr h.0, All-inr P a cs h.1)

module _ {Sender C E : Type 0} (try_send : Sender → SamToApplication → Option Sender)
    (send : C → SamToApplication → C × Result (Unit {0}) (TransportError E)) where
  -- The calls that one event makes.
  abbrev pub calls_of : ApplicationId → ConnectionId → SessionEvent E Sender → List (Call Sender)
  calls_of a id (incoming (ok message) now) = messages a id message now ∷ []
  calls_of a id (meanwhile call) = call ∷ []
  calls_of a id _ = []

  pub session_step_state :
      (s : ServiceState Sender) (c : C) (a : ApplicationId) (id : ConnectionId)
      (event : SessionEvent E Sender)
      → (session_step try_send send s c a id event).0.0 ≡ run try_send s (calls_of a id event)
  unfolding session_step run step
  session_step_state s c a id (outgoing none) = refl
  session_step_state s c a id (outgoing (some message)) = ground arith
  session_step_state s c a id (incoming (ok message) now) =
      elim (Result-cases (handle_message try_send s a id message now).1) [
        | inl (_, q) ↦ ground (arith, q)
        | inr (_, q) ↦ ground (arith, q)
      ]
  session_step_state s c a id (incoming (err e) now) = ground arith
  session_step_state s c a id (meanwhile call) = refl

  calls_of_made :
      (P : Call Sender → Type 0) (a : ApplicationId) (id : ConnectionId)
      (event : SessionEvent E Sender) (events : List (SessionEvent E Sender))
      → Meanwhile P (event ∷ events)
      → All (λ c. IsCallOf a c ⊎ P c) (calls_of a id event) × Meanwhile P events
  calls_of_made P a id (outgoing m) events h = (tt, h)
  calls_of_made P a id (incoming (ok m) now) events h = ((inl refl, tt), h)
  calls_of_made P a id (incoming (err e) now) events h = (tt, h)
  calls_of_made P a id (meanwhile call) events h = ((inr h.0, tt), h.1)

  run_registered_session-Reached :
      (P : Call Sender → Type 0) (s : ServiceState Sender) (c : C) (a : ApplicationId)
      (id : ConnectionId) (events : List (SessionEvent E Sender))
      → Meanwhile P events
      → Reached try_send (Made P a) s (run_registered_session try_send send s c a id events).0.0
  unfolding run_registered_session
  run_registered_session-Reached P s c a id [] m = Reached-refl try_send (Made P a) s
  run_registered_session-Reached P s c a id (event ∷ events) m =
      let done = session_step try_send send s c a id event in
      let (made, others) = calls_of_made P a id event events m in
      let from : (t : ServiceState Sender)
          → Reached try_send (Made P a) done.0.0 t
          → Reached try_send (Made P a) s t =
        λ t r.
          Reached-run try_send (Made P a) s t (calls_of a id event) made (
            subst (λ s'. Reached try_send (Made P a) s' t) (session_step_state s c a id event) r) in
      elim (Option-cases done.1) [
        | inl q ↦
            rw (run_registered_session, q)
              (from _ (run_registered_session-Reached P done.0.0 done.0.1 a id events others))
        | inr (x, q) ↦
            rw (run_registered_session, q) (from _ (Reached-refl try_send (Made P a) done.0.0))
      ]

  serve_registered-Reached :
      (P : Call Sender → Type 0) (s : ServiceState Sender) (c : C) (a : ApplicationId)
      (outbound : Sender) (now later : Instant) (events : List (SessionEvent E Sender))
      (between : List (Call Sender))
      → Meanwhile P events
      → All P between
      → Reached try_send
          (Made P a)
          s
          (serve_registered try_send send s c a outbound now events between later).0.0
  unfolding serve_registered step
  serve_registered-Reached P s c a outbound now later events between m b =
      let s₁ = (register try_send s a outbound now).0 in
      let first : (t : ServiceState Sender)
          → Reached try_send (Made P a) s₁ t
          → Reached try_send (Made P a) s t =
        λ t r. Reached-step try_send (Made P a) s t (registers a outbound now) (inl refl) r in
      elim (Result-cases (register try_send s a outbound now).1) [
        | inr (x, q) ↦ rw (serve_registered, q) (first s₁ (Reached-refl try_send (Made P a) s₁))
        | inl (id, q) ↦
            let session = run_registered_session try_send send s₁ c a id events in
            let r = run_registered_session-Reached P s₁ c a id events m in
            rw (serve_registered, q)
              (elim (Option-cases session.1) [
                | inl q' ↦ rw q' (first session.0.0 r)
                | inr (x, q') ↦
                    let left = run try_send session.0.0 between in
                    let t = (disconnect try_send left a id later).0 in
                    rw q' (
                      first t (
                        Reached-trans try_send (Made P a) s₁ session.0.0 t r (
                          Reached-run try_send (Made P a) session.0.0 t between
                            (All-inr P a between b)
                            (Reached-step try_send (Made P a) left t (disconnects a id later)
                              (inl refl) (Reached-refl try_send (Made P a) t)))))
              ])
      ]

  -- Serving a connection that registers as an application changes the service just as some list of
  -- calls does, of which each is a registration, a message or a disconnection of that application,
  -- or of the kind `P` that other tasks make in between.
  pub serve_connection-run :
      (P : Call Sender → Type 0) (s : ServiceState Sender) (c : C) (a : ApplicationId) (version : ℕ)
      (outbound : Sender) (now later : Instant) (events : List (SessionEvent E Sender))
      (between : List (Call Sender))
      → Meanwhile P events
      → All P between
      → (cs : List (Call Sender)) × ((serve_connection try_send send s c
            (some (ok (ApplicationToSam.register a version)))
            outbound
            now
            events
            between
            later).0.0
          ≡ run try_send s cs)
        × All (λ x. IsCallOf a x ⊎ P x) cs
  unfolding serve_connection reject Reached run
  serve_connection-run P s c a version outbound now later events between m b =
      elim (Bool-cases (version == protocol_version)) [
        | inr other ↦ rw other ([], refl, tt)
        | inl same ↦
            rw same (serve_registered-Reached P s c a outbound now later events between m b)
      ]
