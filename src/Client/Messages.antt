-- ===== src/Client/Messages.antt =====
-- crates/sam-client/src/lib.rs: what the methods of `SamClient` and of `SamSender` send. Both halves
-- of the file build the same messages, around another `send`.
use rust_state_machine_cowbo.Prelude.{Result}
use rust_state_machine_cowbo.Protocol.{
  SystemMode, HealthState, TransitionId, ApplicationId, ApplicationToSam, protocol_version,
}
use rust_state_machine_cowbo.Prelude.{String}

module _ {Connection Error : Type 0}
    (send : Connection → ApplicationToSam → Connection × Result (Unit {0}) Error)
    (application : ApplicationId) where
  unfoldable pub register : Connection → Connection × Result (Unit {0}) Error
  register connection = send connection (ApplicationToSam.register application protocol_version)

  unfoldable pub heartbeat :
      Connection → HealthState → SystemMode → Connection × Result (Unit {0}) Error
  heartbeat connection reported current_mode =
      send connection (ApplicationToSam.heartbeat application reported current_mode)

  unfoldable pub mode_ready : Connection → TransitionId → Connection × Result (Unit {0}) Error
  mode_ready connection transition_id =
      send connection (ApplicationToSam.mode_ready application transition_id)

  unfoldable pub mode_rejected :
      Connection → TransitionId → String → Connection × Result (Unit {0}) Error
  mode_rejected connection transition_id reason =
      send connection (ApplicationToSam.mode_rejected application transition_id reason)

  unfoldable pub mode_committed :
      Connection → TransitionId → SystemMode → Connection × Result (Unit {0}) Error
  mode_committed connection transition_id mode =
      send connection (ApplicationToSam.mode_committed application transition_id mode)
