-- ===== src/Service/Authority.antt =====
-- The system's mode is the mode manager's, after every call.
use rust_state_machine_cowbo.Prelude.{
  String, true, List, [], ◌∷◌, Option, none, some, ok, ◌≡◌, refl, inl, inr, arith, string_eq,
  nat_eq,
}
use rust_state_machine_cowbo.HashMap.{HashMap, is_some, is_some_and}
use rust_state_machine_cowbo.HashMap
use text.Mathlib.TextEquality.{eq_iff}
use rust_state_machine_cowbo.Protocol.{
  SystemMode, ApplicationId, ApplicationToSam, SamToApplication, TransitionId,
}
use rust_state_machine_cowbo.Core.Mode.{ModeManager, Operation, current_mode}
use rust_state_machine_cowbo.Core.Mode.Invariant.{IsValidState, step-IsValidState}
use rust_state_machine_cowbo.Core.Mode.Authority.{current_mode_cases}
use rust_state_machine_cowbo.Core.Health.{Duration}
use rust_state_machine_cowbo.Core.Registry.{Instant, get}
use rust_state_machine_cowbo.Core.Registry.Laws.{set_mode-Updates}
use rust_state_machine_cowbo.Service.State.{ServiceState, ConnectionId, verify_connection, new}
use rust_state_machine_cowbo.Service.Messages.{
  dispatch, on_heartbeat, on_mode_ready, on_mode_rejected, on_mode_committed,
}
use rust_state_machine_cowbo.Service.Operations.{message_rule, Performs, call_operation, modes-step}
use rust_state_machine_cowbo.Service.Presence.{IsPresent, step-IsPresent}
use rust_state_machine_cowbo.Service.Calls.{
  Call, registers, disconnects, messages, requests, refreshes, step, run,
}

abbrev pub Agrees : {Sender : Type 0} → ServiceState Sender → Type 0
Agrees s = s.system.mode ≡ current_mode s.modes

-- Whoever holds the current connection of `a` finds `a` in the registry.
pub registered_of_active :
    {Sender : Type 0} (s : ServiceState Sender) (a : ApplicationId) (id : ConnectionId)
    → IsPresent s
    → verify_connection s a id ≡ ok tt
    → is_some (get s.applications a) ≡ true
unfolding verify_connection
registered_of_active s a id v h = ground (arith, v a)

-- A state is consistent if its clients are registered and connected, its mode is the mode
-- manager's, and the mode manager is in a valid state.
pub record IsConsistent {Sender : Type 0} (s : ServiceState Sender) : Type 0 where
  pub present : IsPresent s
  pub agrees : Agrees s
  pub valid : IsValidState s.modes.state

module _ {Sender : Type 0} (try_send : Sender → SamToApplication → Option Sender) where
  on_mode_ready-Agrees :
      (s : ServiceState Sender) (r a : ApplicationId) (i : TransitionId)
      → Agrees s
      → Agrees (on_mode_ready try_send s r a i).0
  unfolding on_mode_ready
  on_mode_ready-Agrees s r a i v =
      ground (arith, (current_mode_cases s.modes a i s.system.mode "" []).1)

  on_mode_rejected-Agrees :
      (s : ServiceState Sender) (r a : ApplicationId) (i : TransitionId) (reason : String)
      → Agrees s
      → Agrees (on_mode_rejected try_send s r a i reason).0
  unfolding on_mode_rejected
  on_mode_rejected-Agrees s r a i reason v =
      ground (arith, (current_mode_cases s.modes a i s.system.mode reason []).2)

  on_mode_committed-Agrees :
      (s : ServiceState Sender) (r a : ApplicationId) (i : TransitionId) (mode : SystemMode)
      (now : Instant)
      → is_some (get s.applications r) ≡ true
      → Agrees s
      → Agrees (on_mode_committed try_send s r a i mode now).0
  unfolding on_mode_committed
  on_mode_committed-Agrees s r a i mode now k v = ground (
    arith,
    (current_mode_cases s.modes a i mode "" []).3,
    set_mode-Updates mode s.applications a a,
    eq_iff r a,
  )

  dispatch-Agrees :
      (s : ServiceState Sender) (r : ApplicationId) (m : ApplicationToSam) (now : Instant)
      → is_some (get s.applications r) ≡ true
      → Agrees s
      → Agrees (dispatch try_send s r m now).0
  unfolding dispatch
  dispatch-Agrees s r (ApplicationToSam.register a version) now k v = v
  dispatch-Agrees s r (ApplicationToSam.heartbeat a h mode) now k v =
      unfold on_heartbeat in ground arith
  dispatch-Agrees s r (ApplicationToSam.mode_ready a i) now k v = on_mode_ready-Agrees s r a i v
  dispatch-Agrees s r (ApplicationToSam.mode_rejected a i reason) now k v =
      on_mode_rejected-Agrees s r a i reason v
  dispatch-Agrees s r (ApplicationToSam.mode_committed a i mode) now k v =
      on_mode_committed-Agrees s r a i mode now k v

  step-Agrees :
      (s : ServiceState Sender) (c : Call Sender)
      → IsPresent s
      → Agrees s
      → Agrees (step try_send s c)
  unfolding step
  step-Agrees s (registers a outbound now) p v = ground arith
  step-Agrees s (disconnects a id now) p v = ground arith
  step-Agrees s (messages a id m now) p v =
      message_rule try_send Agrees s a id m now v
        (λ active. dispatch-Agrees s a m now (registered_of_active s a id p active) v)
  step-Agrees s (requests target) p v =
      ground (arith, (current_mode_cases s.modes "" 0 target "" (HashMap.keys s.clients)).0)
  step-Agrees s (refreshes now) p v = ground arith

  Performs-valid :
      (m m' : ModeManager) (o : Option Operation)
      → IsValidState m.state
      → Performs m o m'
      → IsValidState m'.state
  Performs-valid m m' none v e = rw e v
  Performs-valid m m' (some o) v (inl e) = rw e v
  Performs-valid m m' (some o) v (inr e) = rw e (step-IsValidState m o v)

  step-valid :
      (s : ServiceState Sender) (c : Call Sender)
      → IsValidState s.modes.state
      → IsValidState (step try_send s c).modes.state
  step-valid s c v = Performs-valid s.modes _ (call_operation s c) v (modes-step try_send s c)

  pub step-IsConsistent :
      (s : ServiceState Sender) (c : Call Sender)
      → IsConsistent s
      → IsConsistent (step try_send s c)
  step-IsConsistent s c v = record {
    present = step-IsPresent try_send s c v.present;
    agrees = step-Agrees s c v.present v.agrees;
    valid = step-valid s c v.valid;
  }

  pub run-IsConsistent :
      (s : ServiceState Sender) (cs : List (Call Sender))
      → IsConsistent s
      → IsConsistent (run try_send s cs)
  unfolding run
  run-IsConsistent s [] v = v
  run-IsConsistent s (c ∷ cs) v = run-IsConsistent (step try_send s c) cs (step-IsConsistent s c v)

  new-IsConsistent : (timeout : Duration) → IsConsistent {Sender = Sender} (new timeout)
  unfolding new HashMap.get
  new-IsConsistent timeout = record { present = λ b k. cc; agrees = refl; valid = tt }

  -- After any calls on a new service, every client is registered and connected, the mode that SAM
  -- reports is the current mode of the mode manager, and a transition under way waits for somebody.
  pub run-new-IsConsistent :
      (timeout : Duration) (cs : List (Call Sender)) → IsConsistent (run try_send (new timeout) cs)
  run-new-IsConsistent timeout cs = run-IsConsistent (new timeout) cs (new-IsConsistent timeout)
