-- ===== src/Service/Shared.antt =====
-- service.rs: `SamService`, the handle that the tasks share. Its mutex makes a method one step on the
-- state; a task that panics while it holds the mutex leaves it poisoned.
use rust_state_machine_cowbo.Prelude.{
  Bool, arith, true, false, List, Option, Result, ok, err, ◌≡◌, if◌then◌else◌,
}
use rust_state_machine_cowbo.Protocol.{
  SystemMode, TransitionId, ApplicationId, ApplicationToSam, SamToApplication,
}
use rust_state_machine_cowbo.Core.Registry.{Instant}
use rust_state_machine_cowbo.Core.Health.{Duration, SystemState}
use rust_state_machine_cowbo.Service.State.{
  ServiceState, ServiceError, state_unavailable, ConnectionId,
}
use rust_state_machine_cowbo.Service.State
use rust_state_machine_cowbo.Service.Methods
use rust_state_machine_cowbo.Service.Messages
use rust_state_machine_cowbo.Service.Snapshot
use rust_state_machine_cowbo.Service.Snapshot.{ApplicationSnapshot}

pub record SamService (Sender : Type 0) : Type 0 where
  pub inner : ServiceState Sender
  pub poisoned : Bool

module _ {Sender : Type 0} where
  unfoldable pub new : Duration → SamService Sender
  new heartbeat_timeout = record { inner = State.new heartbeat_timeout; poisoned = false }

  unfoldable pub lock : SamService Sender → Result (ServiceState Sender) ServiceError
  lock shared = if shared.poisoned then err state_unavailable else ok shared.inner

  -- `let mut state = self.lock()?`, and what a method does with the state.
  unfoldable pub with_lock :
      {A : Type 0}
      → SamService Sender
      → (ServiceState Sender → ServiceState Sender × Result A ServiceError)
      → SamService Sender × Result A ServiceError
  with_lock shared method = elim (lock shared) [
    | err e ↦ (shared, err e)
    | ok state ↦ (record shared { inner = (method state).0 }, (method state).1)
  ]

  unavailable :
      (shared : SamService Sender)
      → shared.poisoned ≡ true
      → {A : Type 0} (method : ServiceState Sender → ServiceState Sender × Result A ServiceError)
      → with_lock shared method ≡ (shared, err state_unavailable)
  unfolding with_lock lock
  unavailable shared h method = ground (arith, h)

  unfoldable pub snapshot : SamService Sender → SamService Sender × Result SystemState ServiceError
  snapshot shared = with_lock shared λ state. (state, ok (State.snapshot state))

  unfoldable pub transition_in_progress :
      SamService Sender → SamService Sender × Result Bool ServiceError
  transition_in_progress shared =
      with_lock shared λ state. (state, ok (State.transition_in_progress state))

  unfoldable pub applications :
      SamService Sender
      → Instant
      → SamService Sender × Result (List ApplicationSnapshot) ServiceError
  applications shared now = with_lock shared λ state. (state, ok (Snapshot.applications state now))

module _ {Sender : Type 0} (try_send : Sender → SamToApplication → Option Sender) where
  unfoldable pub register :
      SamService Sender
      → ApplicationId
      → Sender
      → Instant
      → SamService Sender × Result ConnectionId ServiceError
  register shared application outbound now =
      with_lock shared λ state. Methods.register try_send state application outbound now

  unfoldable pub disconnect :
      SamService Sender
      → ApplicationId
      → ConnectionId
      → Instant
      → SamService Sender × Result (Unit {0}) ServiceError
  disconnect shared application connection_id now =
      with_lock shared λ state. Methods.disconnect try_send state application connection_id now

  unfoldable pub handle_message :
      SamService Sender
      → ApplicationId
      → ConnectionId
      → ApplicationToSam
      → Instant
      → SamService Sender × Result (Unit {0}) ServiceError
  handle_message shared registered connection_id message now =
      with_lock shared
        λ state. Messages.handle_message try_send state registered connection_id message now

  unfoldable pub request_mode :
      SamService Sender → SystemMode → SamService Sender × Result TransitionId ServiceError
  request_mode shared target = with_lock shared λ state. Methods.request_mode try_send state target

  unfoldable pub refresh_health :
      SamService Sender → Instant → SamService Sender × Result (Unit {0}) ServiceError
  refresh_health shared now =
      with_lock shared λ state. (Methods.refresh_health try_send state now, ok tt)

  -- Once the mutex is poisoned, every method fails with `StateUnavailable` and changes nothing.
  pub poisoned_unavailable :
      (shared : SamService Sender) (a : ApplicationId) (outbound : Sender) (id : ConnectionId)
      (message : ApplicationToSam) (target : SystemMode) (now : Instant)
      → shared.poisoned ≡ true
      → (register shared a outbound now ≡ (shared, err state_unavailable))
        × (disconnect shared a id now ≡ (shared, err state_unavailable))
        × (handle_message shared a id message now ≡ (shared, err state_unavailable))
        × (request_mode shared target ≡ (shared, err state_unavailable))
        × (refresh_health shared now ≡ (shared, err state_unavailable))
        × (snapshot shared ≡ (shared, err state_unavailable))
        × (transition_in_progress shared ≡ (shared, err state_unavailable))
        × (applications shared now ≡ (shared, err state_unavailable))
  unfolding register disconnect handle_message request_mode refresh_health snapshot
      transition_in_progress applications
  poisoned_unavailable shared a outbound id message target now h = (
    unavailable shared h _,
    unavailable shared h _,
    unavailable shared h _,
    unavailable shared h _,
    unavailable shared h _,
    unavailable shared h _,
    unavailable shared h _,
    unavailable shared h _,
  )
