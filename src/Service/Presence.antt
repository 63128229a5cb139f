-- ===== src/Service/Presence.antt =====
-- Every client is registered and connected.
use rust_state_machine_cowbo.Prelude.{
  String, Bool, true, false, Option, none, some, ◌≡◌, arith, string_eq,
}
use text.Mathlib.TextEquality.{eq_iff}
use rust_state_machine_cowbo.HashMap.{HashMap, is_some, is_some_and, get-insert, get-remove}
use rust_state_machine_cowbo.HashMap
use rust_state_machine_cowbo.Protocol.{
  SystemMode, HealthState, ApplicationId, ApplicationToSam, SamToApplication, TransitionId,
}
use rust_state_machine_cowbo.Core.Registry.{
  Instant, get, ApplicationStatus, update_heartbeat, set_mode, mark_disconnected,
}
use rust_state_machine_cowbo.Core.Registry
use rust_state_machine_cowbo.Core.Registry.Laws.{
  get-register, update_heartbeat-Updates, set_mode-Updates, mark_disconnected-Updates,
}
use rust_state_machine_cowbo.Service.State.{
  ServiceState, ConnectionId, deliver_all, ClientConnection,
}
use rust_state_machine_cowbo.Service.Methods.{register, disconnect}
use rust_state_machine_cowbo.Service.Messages.{
  dispatch, on_heartbeat, on_mode_ready, on_mode_rejected, on_mode_committed,
}
use rust_state_machine_cowbo.Service.Delivery.{get-deliver_all}
use rust_state_machine_cowbo.Service.Operations.{message_rule}
use rust_state_machine_cowbo.Service.Calls.{
  Call, registers, disconnects, messages, requests, refreshes, step,
}

abbrev pub is_connected : Option ApplicationStatus → Bool
is_connected none = false
is_connected (some status) = status.connected

abbrev pub IsPresent : {Sender : Type 0} → ServiceState Sender → Type 0
IsPresent s =
    (b : ApplicationId)
    → HashMap.contains_key b s.clients ≡ true
    → is_connected (get s.applications b) ≡ true

module _ {Sender : Type 0} (try_send : Sender → SamToApplication → Option Sender) where
  contains_key-deliver_all :
      (m : SamToApplication) (b : ApplicationId)
      (cs : HashMap ApplicationId (ClientConnection Sender))
      → HashMap.contains_key b (deliver_all try_send m cs) ≡ HashMap.contains_key b cs
  contains_key-deliver_all m b cs = ground (arith, get-deliver_all try_send m b cs)

  on_heartbeat-IsPresent :
      (s : ServiceState Sender) (r a : ApplicationId) (h : HealthState) (mode : SystemMode)
      (now : Instant)
      → IsPresent s
      → IsPresent (on_heartbeat try_send s r a h mode now).0
  unfolding on_heartbeat
  on_heartbeat-IsPresent s r a h mode now v b k = grind (
    arith,
    contains_key-deliver_all,
    update_heartbeat-Updates h mode now s.applications a b,
    eq_iff a b,
    v b,
  )

  on_mode_ready-IsPresent :
      (s : ServiceState Sender) (r a : ApplicationId) (i : TransitionId)
      → IsPresent s
      → IsPresent (on_mode_ready try_send s r a i).0
  unfolding on_mode_ready
  on_mode_ready-IsPresent s r a i v b k = grind (arith, contains_key-deliver_all, v b)

  on_mode_rejected-IsPresent :
      (s : ServiceState Sender) (r a : ApplicationId) (i : TransitionId) (reason : String)
      → IsPresent s
      → IsPresent (on_mode_rejected try_send s r a i reason).0
  unfolding on_mode_rejected
  on_mode_rejected-IsPresent s r a i reason v b k = grind (arith, contains_key-deliver_all, v b)

  on_mode_committed-IsPresent :
      (s : ServiceState Sender) (r a : ApplicationId) (i : TransitionId) (mode : SystemMode)
      (now : Instant)
      → IsPresent s
      → IsPresent (on_mode_committed try_send s r a i mode now).0
  unfolding on_mode_committed
  on_mode_committed-IsPresent s r a i mode now v b k =
      grind
        (arith, contains_key-deliver_all, set_mode-Updates mode s.applications a b, eq_iff a b, v b)

  dispatch-IsPresent :
      (s : ServiceState Sender) (r : ApplicationId) (m : ApplicationToSam) (now : Instant)
      → IsPresent s
      → IsPresent (dispatch try_send s r m now).0
  unfolding dispatch
  dispatch-IsPresent s r (ApplicationToSam.register a version) now v = v
  dispatch-IsPresent s r (ApplicationToSam.heartbeat a h mode) now v =
      on_heartbeat-IsPresent s r a h mode now v
  dispatch-IsPresent s r (ApplicationToSam.mode_ready a i) now v = on_mode_ready-IsPresent s r a i v
  dispatch-IsPresent s r (ApplicationToSam.mode_rejected a i reason) now v =
      on_mode_rejected-IsPresent s r a i reason v
  dispatch-IsPresent s r (ApplicationToSam.mode_committed a i mode) now v =
      on_mode_committed-IsPresent s r a i mode now v

  register-IsPresent :
      (s : ServiceState Sender) (a : ApplicationId) (outbound : Sender) (now : Instant)
      → IsPresent s
      → IsPresent (register try_send s a outbound now).0
  unfolding register Registry.new
  register-IsPresent s a outbound now v b k =
      grind (arith, get-insert, get-register s.applications a b now, eq_iff a b, v b)

  disconnect-IsPresent :
      (s : ServiceState Sender) (a : ApplicationId) (id : ConnectionId) (now : Instant)
      → IsPresent s
      → IsPresent (disconnect try_send s a id now).0
  unfolding disconnect
  disconnect-IsPresent s a id now v b k = grind (
    arith,
    contains_key-deliver_all,
    get-remove b a s.clients,
    mark_disconnected-Updates s.applications a b,
    eq_iff a b,
    v b,
  )

  pub step-IsPresent :
      (s : ServiceState Sender) (c : Call Sender) → IsPresent s → IsPresent (step try_send s c)
  unfolding step
  step-IsPresent s (registers a outbound now) v = register-IsPresent s a outbound now v
  step-IsPresent s (disconnects a id now) v = disconnect-IsPresent s a id now v
  step-IsPresent s (messages a id m now) v =
      message_rule try_send IsPresent s a id m now v (λ _. dispatch-IsPresent s a m now v)
  step-IsPresent s (requests target) v = λ b k. grind (arith, contains_key-deliver_all, v b)
  step-IsPresent s (refreshes now) v = λ b k. grind (arith, contains_key-deliver_all, v b)
