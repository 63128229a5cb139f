-- ===== src/Transport/Connection.antt =====
-- crates/sam-transport/src/frame.rs: the connection around a stream, its two halves, and their
-- methods. How tokio splits a stream is a parameter.
use rust_state_machine_cowbo.Prelude.{ℕ, Result}
use rust_state_machine_cowbo.Transport.Error.{TransportError}
use rust_state_machine_cowbo.Transport.Streams.{AsyncRead, AsyncWrite, Postcard}
use rust_state_machine_cowbo.Transport.Frame.{default_max_frame_size, send_frame, receive_frame}

pub record FramedConnection (S : Type 0) : Type 0 where
  pub stream : S
  pub max_frame_size : ℕ

pub record FramedReader (R : Type 0) : Type 0 where
  pub reader : R
  pub max_frame_size : ℕ

pub record FramedWriter (W : Type 0) : Type 0 where
  pub writer : W
  pub max_frame_size : ℕ

-- The constructors of the two halves.
abbrev pub reader_with_max_frame_size : {R : Type 0} → R → ℕ → FramedReader R
reader_with_max_frame_size reader max_frame_size = record {
  reader = reader;
  max_frame_size = max_frame_size;
}

abbrev pub writer_with_max_frame_size : {W : Type 0} → W → ℕ → FramedWriter W
writer_with_max_frame_size writer max_frame_size = record {
  writer = writer;
  max_frame_size = max_frame_size;
}

module _ {S : Type 0} where
  abbrev pub with_max_frame_size : S → ℕ → FramedConnection S
  with_max_frame_size stream max_frame_size = record {
    stream = stream;
    max_frame_size = max_frame_size;
  }

  abbrev pub new : S → FramedConnection S
  new stream = with_max_frame_size stream default_max_frame_size

  abbrev pub into_inner : FramedConnection S → S
  into_inner connection = connection.stream

  abbrev pub into_split :
      {R W : Type 0} → (S → R × W) → FramedConnection S → FramedReader R × FramedWriter W
  into_split split connection =
      let halves = split connection.stream in
      (
        reader_with_max_frame_size halves.0 connection.max_frame_size,
        writer_with_max_frame_size halves.1 connection.max_frame_size,
      )

module _ {E T : Type 0} (postcard : Postcard E T) where
  unfoldable pub send :
      {S : Type 0}
      → AsyncWrite S
      → FramedConnection S
      → T
      → FramedConnection S × Result (Unit {0}) (TransportError E)
  send writing connection message =
      let sent = send_frame postcard writing connection.stream connection.max_frame_size message in
      (record connection { stream = sent.0 }, sent.1)

  unfoldable pub receive :
      {S : Type 0}
      → AsyncRead S
      → FramedConnection S
      → FramedConnection S × Result T (TransportError E)
  receive reading connection =
      let got = receive_frame postcard reading connection.stream connection.max_frame_size in
      (record connection { stream = got.0 }, got.1)
