-- ===== src/Client/Methods.antt =====
-- crates/sam-client/src/lib.rs: the methods of `SamClient` and of `SamSender` that send, each on its
-- own connection.
use rust_state_machine_cowbo.Prelude.{String, Result}
use rust_state_machine_cowbo.Protocol.{SystemMode, HealthState, TransitionId, ApplicationToSam}
use rust_state_machine_cowbo.Transport.Error.{TransportError}
use rust_state_machine_cowbo.Transport.Streams.{AsyncWrite, Postcard}
use rust_state_machine_cowbo.Client.Handle.{SamClient, SamSender, send_client, send_sender}
use rust_state_machine_cowbo.Client.Messages

module _ {E S : Type 0} (postcard : Postcard E ApplicationToSam) (writing : AsyncWrite S) where
  unfoldable pub client_register : SamClient S → SamClient S × Result (Unit {0}) (TransportError E)
  client_register client =
      Messages.register (send_client postcard writing) client.application client

  unfoldable pub client_heartbeat :
      SamClient S → HealthState → SystemMode → SamClient S × Result (Unit {0}) (TransportError E)
  client_heartbeat client health current_mode =
      Messages.heartbeat (send_client postcard writing) client.application client health
        current_mode

  unfoldable pub client_mode_ready :
      SamClient S → TransitionId → SamClient S × Result (Unit {0}) (TransportError E)
  client_mode_ready client transition_id =
      Messages.mode_ready (send_client postcard writing) client.application client transition_id

  unfoldable pub client_mode_rejected :
      SamClient S → TransitionId → String → SamClient S × Result (Unit {0}) (TransportError E)
  client_mode_rejected client transition_id reason =
      Messages.mode_rejected (send_client postcard writing) client.application client transition_id
        reason

  unfoldable pub client_mode_committed :
      SamClient S → TransitionId → SystemMode → SamClient S × Result (Unit {0}) (TransportError E)
  client_mode_committed client transition_id mode =
      Messages.mode_committed (send_client postcard writing) client.application client transition_id
        mode

module _ {E W : Type 0} (postcard : Postcard E ApplicationToSam) (writing : AsyncWrite W) where
  unfoldable pub sender_register : SamSender W → SamSender W × Result (Unit {0}) (TransportError E)
  sender_register sender =
      Messages.register (send_sender postcard writing) sender.application sender

  unfoldable pub sender_heartbeat :
      SamSender W → HealthState → SystemMode → SamSender W × Result (Unit {0}) (TransportError E)
  sender_heartbeat sender health current_mode =
      Messages.heartbeat (send_sender postcard writing) sender.application sender health
        current_mode

  unfoldable pub sender_mode_ready :
      SamSender W → TransitionId → SamSender W × Result (Unit {0}) (TransportError E)
  sender_mode_ready sender transition_id =
      Messages.mode_ready (send_sender postcard writing) sender.application sender transition_id

  unfoldable pub sender_mode_rejected :
      SamSender W → TransitionId → String → SamSender W × Result (Unit {0}) (TransportError E)
  sender_mode_rejected sender transition_id reason =
      Messages.mode_rejected (send_sender postcard writing) sender.application sender transition_id
        reason

  unfoldable pub sender_mode_committed :
      SamSender W → TransitionId → SystemMode → SamSender W × Result (Unit {0}) (TransportError E)
  sender_mode_committed sender transition_id mode =
      Messages.mode_committed (send_sender postcard writing) sender.application sender transition_id
        mode
