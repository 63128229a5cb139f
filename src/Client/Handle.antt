-- ===== src/Client/Handle.antt =====
-- crates/sam-client/src/lib.rs: `SamClient`, and the halves that it splits into. The platform's
-- stream and what connects it are parameters.
use rust_state_machine_cowbo.Prelude.{Result, ok, err}
use rust_state_machine_cowbo.Protocol.{ApplicationId, ApplicationToSam, SamToApplication}
use rust_state_machine_cowbo.Transport.Error.{TransportError}
use rust_state_machine_cowbo.Transport.Streams.{AsyncRead, AsyncWrite, Postcard}
use rust_state_machine_cowbo.Transport.Connection.{
  FramedConnection, FramedReader, FramedWriter, send, receive,
}
use rust_state_machine_cowbo.Transport.Connection
use rust_state_machine_cowbo.Transport.Halves

pub record SamClient (S : Type 0) : Type 0 where
  pub application : ApplicationId
  pub connection : FramedConnection S

pub record SamReceiver (R : Type 0) : Type 0 where
  pub reader : FramedReader R

pub record SamSender (W : Type 0) : Type 0 where
  pub application : ApplicationId
  pub writer : FramedWriter W

module _ {E : Type 0} where
  abbrev pub connect :
      {S : Type 0}
      → ApplicationId
      → Result (FramedConnection S) (TransportError E)
      → Result (SamClient S) (TransportError E)
  connect application (ok connection) =
      ok (record { application = application; connection = connection })
  connect application (err e) = err e

  abbrev pub send_client :
      {S : Type 0}
      → Postcard E ApplicationToSam
      → AsyncWrite S
      → SamClient S
      → ApplicationToSam
      → SamClient S × Result (Unit {0}) (TransportError E)
  send_client postcard writing client message =
      let sent = send postcard writing client.connection message in
      (record client { connection = sent.0 }, sent.1)

  abbrev pub next_message :
      {S : Type 0}
      → Postcard E SamToApplication
      → AsyncRead S
      → SamClient S
      → SamClient S × Result SamToApplication (TransportError E)
  next_message postcard reading client =
      let got = receive postcard reading client.connection in
      (record client { connection = got.0 }, got.1)

  abbrev pub send_sender :
      {W : Type 0}
      → Postcard E ApplicationToSam
      → AsyncWrite W
      → SamSender W
      → ApplicationToSam
      → SamSender W × Result (Unit {0}) (TransportError E)
  send_sender postcard writing sender message =
      let sent = Halves.send postcard writing sender.writer message in
      (record sender { writer = sent.0 }, sent.1)

  abbrev pub receiver_next_message :
      {R : Type 0}
      → Postcard E SamToApplication
      → AsyncRead R
      → SamReceiver R
      → SamReceiver R × Result SamToApplication (TransportError E)
  receiver_next_message postcard reading receiver =
      let got = Halves.receive postcard reading receiver.reader in
      (record receiver { reader = got.0 }, got.1)

abbrev pub into_split : {S R W : Type 0} → (S → R × W) → SamClient S → SamReceiver R × SamSender W
into_split split client =
    let halves = Connection.into_split split client.connection in
    (record { reader = halves.0 }, record { application = client.application; writer = halves.1 })
