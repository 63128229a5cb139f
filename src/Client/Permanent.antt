-- ===== src/Client/Permanent.antt =====
-- For which errors of a session the runtime returns, and for which it starts another session.
use rust_state_machine_cowbo.Prelude.{
  ℕ, String, true, false, List, [], ◌∷◌, Option, none, some, Result, ◌≡◌, refl, ◌⊎◌, inl, inr,
  arith, Option-cases, subst,
}
use rust_state_machine_cowbo.Protocol.{
  SystemMode, ApplicationId, ApplicationToSam, SamToApplication,
}
use rust_state_machine_cowbo.Transport.Error.{TransportError}
use rust_state_machine_cowbo.Client.Handler.{ModeHandler}
use rust_state_machine_cowbo.Client.Runtime.{
  RuntimeError, transport, registration_timeout, registration_rejected, protocol_version_mismatch,
  unexpected_registration_response, connection_closed, commit_failed,
  initial_synchronization_failed, Attempt, is_permanent, run_session, run,
}

-- Another session would end in the same way.
pub data IsFinal (E : Type 0) : RuntimeError E → Type 0 where
  rejected :
      (supported_version : ℕ) (reason : String)
      → IsFinal E (registration_rejected supported_version reason)
  mismatched : (received supported : ℕ) → IsFinal E (protocol_version_mismatch received supported)
  not_synchronized :
      (mode : SystemMode) (reason : String) → IsFinal E (initial_synchronization_failed mode reason)

-- Another session may go better.
pub data IsPassing (E : Type 0) : RuntimeError E → Type 0 where
  broken : (error : TransportError E) → IsPassing E (transport error)
  silent : IsPassing E registration_timeout
  unexpected :
      (response : SamToApplication) → IsPassing E (unexpected_registration_response response)
  closed : IsPassing E connection_closed
  not_committed : (reason : String) → IsPassing E (commit_failed reason)

final_or_passing :
    {E : Type 0} (e : RuntimeError E)
    → ((is_permanent e ≡ true) × IsFinal E e) ⊎ ((is_permanent e ≡ false) × IsPassing E e)
final_or_passing (transport error) = inr (refl, broken error)
final_or_passing registration_timeout = inr (refl, silent)
final_or_passing (registration_rejected version reason) = inl (refl, rejected version reason)
final_or_passing (protocol_version_mismatch received supported) =
    inl (refl, mismatched received supported)
final_or_passing (unexpected_registration_response response) = inr (refl, unexpected response)
final_or_passing connection_closed = inr (refl, closed)
final_or_passing (commit_failed reason) = inr (refl, not_committed reason)
final_or_passing (initial_synchronization_failed mode reason) =
    inl (refl, not_synchronized mode reason)

module _ {H W E : Type 0} (handler : ModeHandler H)
    (send : W → ApplicationToSam → W × Result (Unit {0}) (TransportError E))
    (application : ApplicationId) where
  -- What the runtime returns after some attempts, which it does not choose.
  pub data Returns : H → List (Attempt W E) → Option (RuntimeError E) → Type 0 where
    no_attempt : (h : H) → Returns h [] none
    goes_on :
        (h : H) (attempt : Attempt W E) (attempts : List (Attempt W E))
        → (run_session handler send application h attempt).1 ≡ none
        → Returns h (attempt ∷ attempts) none
    gives_up :
        (h : H) (attempt : Attempt W E) (attempts : List (Attempt W E)) (e : RuntimeError E)
        → (run_session handler send application h attempt).1 ≡ some e
        → IsFinal E e
        → Returns h (attempt ∷ attempts) (some e)
    reconnects :
        (h : H) (attempt : Attempt W E) (attempts : List (Attempt W E)) (e : RuntimeError E)
        (r : Option (RuntimeError E))
        → (run_session handler send application h attempt).1 ≡ some e
        → IsPassing E e
        → Returns (run_session handler send application h attempt).0 attempts r
        → Returns h (attempt ∷ attempts) r

  none-run :
      (h : H) (attempt : Attempt W E) (attempts : List (Attempt W E))
      → (run_session handler send application h attempt).1 ≡ none
      → none ≡ (run handler send application h (attempt ∷ attempts)).1
  unfolding run
  none-run h attempt attempts q = ground (arith, q)

  final-run :
      (h : H) (attempt : Attempt W E) (attempts : List (Attempt W E)) (e : RuntimeError E)
      → (run_session handler send application h attempt).1 ≡ some e
      → is_permanent e ≡ true
      → some e ≡ (run handler send application h (attempt ∷ attempts)).1
  unfolding run
  final-run h attempt attempts e q p = ground (arith, q, p)

  passing-run :
      (h : H) (attempt : Attempt W E) (attempts : List (Attempt W E)) (e : RuntimeError E)
      → (let session = run_session handler send application h attempt in
          session.1 ≡ some e
          → is_permanent e ≡ false
          → (run handler send application session.0 attempts).1
            ≡ (run handler send application h (attempt ∷ attempts)).1)
  unfolding run
  passing-run h attempt attempts e q p = ground (arith, q, p)

  -- The runtime returns the error of the first session that ends by a refused registration, by another
  -- version of the protocol or by a failed synchronization. After an error of the transport, a timeout
  -- of the registration, an unexpected message, a closed connection or a failed commit it starts
  -- another session, with the handler as the session has left it; and while a session goes on, it does
  -- not return.
  pub run-Returns :
      (h : H) (attempts : List (Attempt W E))
      → Returns h attempts (run handler send application h attempts).1
  run-Returns h [] = unfold run in no_attempt h
  run-Returns h (attempt ∷ attempts) =
      let session = run_session handler send application h attempt in
      let rest = run-Returns session.0 attempts in
      elim (Option-cases session.1) [
        | inl q ↦
            subst (Returns h (attempt ∷ attempts)) (none-run h attempt attempts q)
              (goes_on h attempt attempts q)
        | inr (e, q) ↦ elim (final_or_passing e) [
          | inl (p, final) ↦
              subst (Returns h (attempt ∷ attempts)) (final-run h attempt attempts e q p)
                (gives_up h attempt attempts e q final)
          | inr (p, passing) ↦
              subst (Returns h (attempt ∷ attempts)) (passing-run h attempt attempts e q p)
                (reconnects h attempt attempts e _ q passing rest)
        ]
      ]
