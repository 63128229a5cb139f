-- ===== src/Transport/Halves.antt =====
-- crates/sam-transport/src/frame.rs: the methods of `FramedReader` and `FramedWriter`.
use rust_state_machine_cowbo.Prelude.{Result}
use rust_state_machine_cowbo.Transport.Error.{TransportError}
use rust_state_machine_cowbo.Transport.Streams.{AsyncRead, AsyncWrite, Postcard}
use rust_state_machine_cowbo.Transport.Frame.{send_frame, receive_frame}
use rust_state_machine_cowbo.Transport.Connection.{FramedReader, FramedWriter}

module _ {E T : Type 0} (postcard : Postcard E T) where
  unfoldable pub send :
      {W : Type 0}
      → AsyncWrite W
      → FramedWriter W
      → T
      → FramedWriter W × Result (Unit {0}) (TransportError E)
  send writing half message =
      let sent = send_frame postcard writing half.writer half.max_frame_size message in
      (record half { writer = sent.0 }, sent.1)

  unfoldable pub receive :
      {R : Type 0} → AsyncRead R → FramedReader R → FramedReader R × Result T (TransportError E)
  receive reading half =
      let got = receive_frame postcard reading half.reader half.max_frame_size in
      (record half { reader = got.0 }, got.1)
