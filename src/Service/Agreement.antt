-- ===== src/Service/Agreement.antt =====
-- A mode that all clients agree to becomes the mode of the system.
use rust_state_machine_cowbo.Prelude.{
  List, [], ◌∷◌, ◌++◌, map, All, Option, some, ok, ◌≡◌, refl, sym, ap, ◌∙◌, arith, string_eq,
  nat_eq, ==_refl,
}
use rust_state_machine_cowbo.HashMap.{is_some_and}
use rust_state_machine_cowbo.HashMap
use rust_state_machine_cowbo.Protocol.{
  SystemMode, ApplicationId, ApplicationToSam, SamToApplication, TransitionId,
}
use rust_state_machine_cowbo.Core.Mode.{
  ModeManager, Operation, ready, committed, stable, current_mode, request_transition,
}
use rust_state_machine_cowbo.Core.Mode
use rust_state_machine_cowbo.Core.Mode.Completion.{
  readies, commits, IsCovered, all_agree_complete, run-append,
}
use rust_state_machine_cowbo.Core.Registry.{Instant}
use rust_state_machine_cowbo.Service.State.{ServiceState, ConnectionId, verify_connection, new}
use rust_state_machine_cowbo.Core.Health.{Duration}
use rust_state_machine_cowbo.Service.Methods.{request_mode}
use rust_state_machine_cowbo.Service.Messages.{
  handle_message, dispatch, on_mode_ready, on_mode_committed,
}
use rust_state_machine_cowbo.Service.Delivery.{id-deliver_all}
use rust_state_machine_cowbo.Service.Connections.{current_id, message-Keeps}
use rust_state_machine_cowbo.Service.Authority.{run-IsConsistent, run-new-IsConsistent}
use rust_state_machine_cowbo.Service.Calls.{run-append_calls, Call, messages, requests, step, run}

-- An application answers on a connection at a time.
abbrev pub Answer : Type 0
Answer = ApplicationId × ConnectionId × Instant

abbrev pub answering : List Answer → List ApplicationId
answering = map λ x. x.0

module _ {Sender : Type 0} where
  abbrev pub ready_calls : TransitionId → List Answer → List (Call Sender)
  ready_calls i = map λ x. messages x.0 x.1 (ApplicationToSam.mode_ready x.0 i) x.2

  abbrev pub commit_calls : TransitionId → SystemMode → List Answer → List (Call Sender)
  commit_calls i target =
      map λ x. messages x.0 x.1 (ApplicationToSam.mode_committed x.0 i target) x.2

  -- The answers come over the current connections.
  abbrev pub AreCurrent : ServiceState Sender → List Answer → Type 0
  AreCurrent s xs = All (λ x. current_id x.0 s.clients ≡ some x.1) xs

  verify_current :
      (s : ServiceState Sender) (a : ApplicationId) (id : ConnectionId)
      → current_id a s.clients ≡ some id
      → verify_connection s a id ≡ ok tt
  unfolding verify_connection
  verify_current s a id h = ground (arith, h)

  AreCurrent-map :
      (s t : ServiceState Sender) (xs : List Answer)
      → ((b : ApplicationId) → current_id b t.clients ≡ current_id b s.clients)
      → AreCurrent s xs
      → AreCurrent t xs
  AreCurrent-map s t [] same h = tt
  AreCurrent-map s t (x ∷ xs) same h = (same x.0 ∙ h.0, AreCurrent-map s t xs same h.1)

module _ {Sender : Type 0} (try_send : Sender → SamToApplication → Option Sender) where
  handle_message_current :
      (s : ServiceState Sender) (a : ApplicationId) (id : ConnectionId) (m : ApplicationToSam)
      (now : Instant)
      → current_id a s.clients ≡ some id
      → handle_message try_send s a id m now ≡ dispatch try_send s a m now
  unfolding handle_message
  handle_message_current s a id m now h = rw (handle_message, verify_current s a id h) refl

  ready_modes :
      (s : ServiceState Sender) (a : ApplicationId) (i : TransitionId) (now : Instant)
      → (dispatch try_send s a (ApplicationToSam.mode_ready a i) now).0.modes
        ≡ Mode.step s.modes (ready a i)
  unfolding dispatch on_mode_ready Mode.step
  ready_modes s a i now = ground (arith, ==_refl a)

  commit_modes :
      (s : ServiceState Sender) (a : ApplicationId) (i : TransitionId) (mode : SystemMode)
      (now : Instant)
      → (dispatch try_send s a (ApplicationToSam.mode_committed a i mode) now).0.modes
        ≡ Mode.step s.modes (committed a i mode)
  unfolding dispatch on_mode_committed Mode.step
  commit_modes s a i mode now = ground (arith, ==_refl a)

  -- Messages that each are one operation on the mode manager.
  module _ (message : ApplicationId → ApplicationToSam) (operation : ApplicationId → Operation)
      (each : (s : ServiceState Sender) (a : ApplicationId) (now : Instant)
        → (dispatch try_send s a (message a) now).0.modes ≡ Mode.step s.modes (operation a)) where
    abbrev calls : List Answer → List (Call Sender)
    calls = map λ x. messages x.0 x.1 (message x.0) x.2

    run-answers :
        (s : ServiceState Sender) (xs : List Answer)
        → AreCurrent s xs
        → ((run try_send s (calls xs)).modes ≡ Mode.run s.modes (map operation (answering xs)))
          × ((b : ApplicationId)
              → current_id b (run try_send s (calls xs)).clients ≡ current_id b s.clients)
    unfolding run step Mode.run
    run-answers s [] h = (refl, λ b. refl)
    run-answers s ((a, id, now) ∷ xs) (h, hs) =
        let t = (handle_message try_send s a id (message a) now).0 in
        let same : (b : ApplicationId) → current_id b t.clients ≡ current_id b s.clients =
          λ b. (message-Keeps try_send s b a id (message a) now).0 in
        let moved : t.modes ≡ Mode.step s.modes (operation a) =
          ap (λ x. x.0.modes) (handle_message_current s a id (message a) now h) ∙ each s a now in
        let (e, same') = run-answers t xs (AreCurrent-map s t xs same hs) in
        (e ∙ ap (λ m. Mode.run m (map operation (answering xs))) moved, λ b. same' b ∙ same b)

  request_mode_accepted :
      (s : ServiceState Sender) (target : SystemMode) {i : TransitionId}
      → (request_mode try_send s target).1 ≡ ok i
      → let requested = request_transition s.modes target (HashMap.keys s.clients) in
        (requested.1 ≡ ok i)
        × ((request_mode try_send s target).0.modes ≡ requested.0)
        × ((b : ApplicationId)
            → current_id b (request_mode try_send s target).0.clients ≡ current_id b s.clients)
  unfolding request_mode
  request_mode_accepted s target h =
      (ground (arith, h), ground (arith, h), λ b. grind (arith, id-deliver_all try_send))

  -- The calls of a transition that everybody agrees to.
  abbrev pub agreed_calls :
      TransitionId → SystemMode → List Answer → List Answer → List (Call Sender)
  agreed_calls i target xs ys = requests target ∷ (ready_calls i xs ++ commit_calls i target ys)

  agreed_modes :
      (s : ServiceState Sender) (target : SystemMode) (xs ys : List Answer) {i : TransitionId}
      → (request_mode try_send s target).1 ≡ ok i
      → AreCurrent s xs
      → AreCurrent s ys
      → IsCovered (HashMap.keys s.clients) (answering xs)
      → IsCovered (HashMap.keys s.clients) (answering ys)
      → (run try_send s (agreed_calls i target xs ys)).modes.state ≡ stable target
  unfolding run step
  agreed_modes s target xs ys {i} h ax ay cx cy =
      let (accepted, modes, same) = request_mode_accepted s target h in
      let s₁ = (request_mode try_send s target).0 in
      let (e, same') =
        run-answers (λ a. ApplicationToSam.mode_ready a i) (λ a. ready a i)
          (λ s a now. ready_modes s a i now) s₁ xs (AreCurrent-map s s₁ xs same ax) in
      let s₂ = run try_send s₁ (ready_calls i xs) in
      let (f, _) =
        run-answers (λ a. ApplicationToSam.mode_committed a i target) (λ a. committed a i target)
          (λ s a now. commit_modes s a i target now) s₂ ys
          (AreCurrent-map s s₂ ys (λ b. same' b ∙ same b) ay) in
      ap (λ t. t.modes.state)
        (run-append_calls try_send s₁ (ready_calls i xs) (commit_calls i target ys))
      ∙ ap (λ m. m.state)
          (f
            ∙ ap (λ m. Mode.run m (commits i target (answering ys)))
                (e ∙ ap (λ m. Mode.run m (readies i (answering xs))) modes)
            ∙ sym (run-append _ (readies i (answering xs)) (commits i target (answering ys))))
      ∙ all_agree_complete s.modes target (HashMap.keys s.clients) (answering xs) (answering ys)
          accepted cx cy

  current_mode_stable :
      (m : ModeManager) (target : SystemMode) → m.state ≡ stable target → current_mode m ≡ target
  current_mode_stable m target h = ground (arith, h)

  -- In any state that a service gets to: when SAM accepts a request for a mode, then each client
  -- answers on its current connection that it is ready, and then each confirms the commit, in any
  -- orders and with any repetitions, the mode of the system is the requested one and no transition is
  -- under way.
  pub agreement_changes_mode :
      (timeout : Duration) (history : List (Call Sender)) (target : SystemMode)
      (xs ys : List Answer) {i : TransitionId}
      → (request_mode try_send (run try_send (new timeout) history) target).1 ≡ ok i
      → AreCurrent (run try_send (new timeout) history) xs
      → AreCurrent (run try_send (new timeout) history) ys
      → IsCovered (HashMap.keys (run try_send (new timeout) history).clients) (answering xs)
      → IsCovered (HashMap.keys (run try_send (new timeout) history).clients) (answering ys)
      → (let t = run try_send (run try_send (new timeout) history) (agreed_calls i target xs ys) in
          (t.system.mode ≡ target) × (t.modes.state ≡ stable target))
  agreement_changes_mode timeout history target xs ys {i} h ax ay cx cy =
      let s = run try_send (new timeout) history in
      let calls = agreed_calls i target xs ys in
      let stays = agreed_modes s target xs ys h ax ay cx cy in
      let consistent =
        run-IsConsistent try_send s calls (run-new-IsConsistent try_send timeout history) in
      (consistent.agrees ∙ current_mode_stable (run try_send s calls).modes target stays, stays)
