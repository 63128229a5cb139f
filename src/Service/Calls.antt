-- ===== src/Service/Calls.antt =====
-- The methods as one type of calls, and a history of them.
use rust_state_machine_cowbo.Prelude.{Option, List, [], ◌∷◌, ◌++◌, ◌≡◌, refl}
use rust_state_machine_cowbo.Protocol.{
  SystemMode, ApplicationId, ApplicationToSam, SamToApplication,
}
use rust_state_machine_cowbo.Core.Registry.{Instant}
use rust_state_machine_cowbo.Service.State.{ConnectionId, ServiceState}
use rust_state_machine_cowbo.Service.Methods.{register, disconnect, request_mode, refresh_health}
use rust_state_machine_cowbo.Service.Messages.{handle_message}

pub data Call (Sender : Type 0) : Type 0 where
  registers : (application : ApplicationId) (outbound : Sender) (now : Instant) → Call Sender
  disconnects : (application : ApplicationId) (id : ConnectionId) (now : Instant) → Call Sender
  messages :
      (application : ApplicationId) (id : ConnectionId) (message : ApplicationToSam) (now : Instant)
      → Call Sender
  requests : (target : SystemMode) → Call Sender
  refreshes : (now : Instant) → Call Sender

module _ {Sender : Type 0} (try_send : Sender → SamToApplication → Option Sender) where
  unfoldable pub step : ServiceState Sender → Call Sender → ServiceState Sender
  unfolding register disconnect handle_message request_mode refresh_health
  step s (registers a outbound now) = (register try_send s a outbound now).0
  step s (disconnects a id now) = (disconnect try_send s a id now).0
  step s (messages a id m now) = (handle_message try_send s a id m now).0
  step s (requests target) = (request_mode try_send s target).0
  step s (refreshes now) = refresh_health try_send s now

  unfoldable pub run : ServiceState Sender → List (Call Sender) → ServiceState Sender
  run s [] = s
  run s (c ∷ cs) = run (step s c) cs

  pub run-append_calls :
      (s : ServiceState Sender) (cs ds : List (Call Sender)) → run s (cs ++ ds) ≡ run (run s cs) ds
  unfolding run
  run-append_calls s [] ds = refl
  run-append_calls s (c ∷ cs) ds = run-append_calls (step s c) cs ds
