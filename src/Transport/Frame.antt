-- ===== src/Transport/Frame.antt =====
-- crates/sam-transport/src/frame.rs: one message is its postcard encoding behind its length, four
-- bytes with the highest first. A method returns the stream after it with its result.
use rust_state_machine_cowbo.Prelude.{
  ℕ, ◌+◌, ◌*◌, ◌/◌, ◌%◌, ◌^◌, List, [], ◌∷◌, Result, ok, err, map_err, question, ltb, if◌then◌else◌,
  length,
}
use rust_state_machine_cowbo.Transport.Error.{TransportError, io, serialization, frame_too_large}
use rust_state_machine_cowbo.Transport.Streams.{AsyncRead, AsyncWrite, Postcard}

abbrev pub default_max_frame_size : ℕ
default_max_frame_size = 64 * 1024

-- `u32::to_be_bytes` and `u32::from_be_bytes`.
unfoldable pub to_be_bytes : ℕ → List ℕ
to_be_bytes n = n / 2 ^ 24 % 256 ∷ n / 2 ^ 16 % 256 ∷ n / 2 ^ 8 % 256 ∷ n % 256 ∷ []

unfoldable pub from_be_bytes : List ℕ → ℕ
from_be_bytes (a ∷ b ∷ c ∷ d ∷ []) = a * 2 ^ 24 + b * 2 ^ 16 + c * 2 ^ 8 + d
from_be_bytes bytes = 0

unfoldable pub validate_size : {E : Type 0} → ℕ → ℕ → Result (Unit {0}) (TransportError E)
validate_size actual maximum =
    if ltb maximum actual then err (frame_too_large actual maximum) else ok tt

module _ {E T : Type 0} (postcard : Postcard E T) where
  -- The writes of `send_frame`, once the payload and its length are accepted.
  unfoldable pub write_frame :
      {W : Type 0} → AsyncWrite W → W → List ℕ → W × Result (Unit {0}) (TransportError E)
  write_frame writing writer payload =
      question io (writing.write_all writer (to_be_bytes (length payload))) λ writer _.
        question io (writing.write_all writer payload)
          λ writer _. question io (writing.flush writer) λ writer _. (writer, ok tt)

  unfoldable pub send_frame :
      {W : Type 0} → AsyncWrite W → W → ℕ → T → W × Result (Unit {0}) (TransportError E)
  send_frame writing writer maximum message = elim (postcard.to_allocvec message) [
    | err e ↦ (writer, err (serialization e))
    | ok payload ↦ elim (validate_size (length payload) maximum) [
      | err e ↦ (writer, err e)
      | ok _ ↦
          if ltb (length payload) (2 ^ 32)
          then write_frame writing writer payload
          else (writer, err (frame_too_large (length payload) maximum))
    ]
  ]

  unfoldable pub receive_frame :
      {R : Type 0} → AsyncRead R → R → ℕ → R × Result T (TransportError E)
  receive_frame reading reader maximum =
      question io (reading.read_exact reader 4) λ reader length_bytes.
        elim (validate_size (from_be_bytes length_bytes) maximum) [
          | err e ↦ (reader, err e)
          | ok _ ↦
              question io (reading.read_exact reader (from_be_bytes length_bytes))
                λ reader payload. (reader, map_err serialization (postcard.from_bytes payload))
        ]
