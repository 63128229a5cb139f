-- ===== src/Conformance/Client.antt =====
-- The unit tests of crates/sam-client/src/lib.rs. What one end of the connection has written is what the
-- other end reads.
use rust_state_machine_cowbo.Prelude.{
  ℕ, Bool, true, false, ◌&&◌, String, List, [], ◌∷◌, ◌++◌, Result, ok, err, ◌==◌, ◌≡◌, refl,
  string_eq, nat_eq, if◌then◌else◌,
}
use rust_state_machine_cowbo.Protocol.{
  SystemMode, startup, standby, working, HealthState, healthy, degraded, failed, ApplicationId,
  ApplicationToSam, SamToApplication, prepare_mode, commit_mode, protocol_version, mode_eq,
  health_eq,
}
use rust_state_machine_cowbo.Transport.Streams.{Postcard}
use rust_state_machine_cowbo.Transport.Frame.{
  to_be_bytes, from_be_bytes, validate_size, write_frame, send_frame, receive_frame,
}
use rust_state_machine_cowbo.Transport.Connection.{FramedConnection, new, send, receive}
use rust_state_machine_cowbo.Transport.Halves
use rust_state_machine_cowbo.Transport.Tests.{reading, writing, take_exact}
use rust_state_machine_cowbo.Client.Handle.{
  SamClient, SamReceiver, connect, next_message, receiver_next_message, into_split,
}
use rust_state_machine_cowbo.Client.Messages
use rust_state_machine_cowbo.Client.Methods.{
  client_register, client_heartbeat, client_mode_ready, client_mode_rejected, client_mode_committed,
  sender_heartbeat,
}
use rust_state_machine_cowbo.Conformance.Unwrap.{unwrap}

-- `assert_eq!` on the messages that a server receives and on those that it sends.
abbrev same : ApplicationToSam → ApplicationToSam → Bool
same (ApplicationToSam.register a v) (ApplicationToSam.register b w) = a == b && v == w
same (ApplicationToSam.heartbeat a h m) (ApplicationToSam.heartbeat b k n) =
    a == b && h == k && m == n
same (ApplicationToSam.mode_ready a i) (ApplicationToSam.mode_ready b j) = a == b && i == j
same (ApplicationToSam.mode_rejected a i r) (ApplicationToSam.mode_rejected b j s) =
    a == b && i == j && r == s
same (ApplicationToSam.mode_committed a i m) (ApplicationToSam.mode_committed b j n) =
    a == b && i == j && m == n
same _ _ = false

abbrev same_answer : SamToApplication → SamToApplication → Bool
same_answer (prepare_mode i m) (prepare_mode j n) = i == j && m == n
same_answer (commit_mode i m) (commit_mode j n) = i == j && m == n
same_answer _ _ = false

module _ (to_sam : Postcard (Unit {0}) ApplicationToSam)
    (to_application : Postcard (Unit {0}) SamToApplication) where
  -- `SamClient::connect(application, &endpoint).await.unwrap()`, to a server that has sent `bytes`.
  abbrev connected : ApplicationId → List ℕ → (SamClient (List ℕ) → Bool) → Bool
  connected application bytes rest = elim (connect {E = Unit {0}} application (ok (new bytes))) [
    | ok client ↦ rest client
    | err e ↦ false
  ]

  -- The server reads what the client has written.
  abbrev receives :
      FramedConnection (List ℕ) → ApplicationToSam → (FramedConnection (List ℕ) → Bool) → Bool
  receives connection expected rest =
      unwrap (receive to_sam reading connection)
        λ connection received. same received expected && rest connection

  abbrev register_sends_application_id_and_protocol_version : Bool
  register_sends_application_id_and_protocol_version = connected "navigation" [] λ client.
      unwrap (client_register to_sam writing client) λ client _.
        receives (new client.connection.stream)
          (ApplicationToSam.register "navigation" protocol_version) λ connection. true

  abbrev heartbeat_ready_rejected_and_committed_carry_the_right_fields : Bool
  heartbeat_ready_rejected_and_committed_carry_the_right_fields = connected "guidance" [] λ client.
      unwrap (client_heartbeat to_sam writing client degraded working) λ client _.
        unwrap (client_mode_ready to_sam writing client 1) λ client _.
          unwrap (client_mode_rejected to_sam writing client 1 "solution unavailable") λ client _.
            unwrap (client_mode_committed to_sam writing client 2 working) λ client _.
              receives (new client.connection.stream)
                (ApplicationToSam.heartbeat "guidance" degraded working)
                λ connection.
                  receives connection (ApplicationToSam.mode_ready "guidance" 1) λ connection.
                    receives connection
                      (ApplicationToSam.mode_rejected "guidance" 1 "solution unavailable")
                      λ connection.
                        receives connection (ApplicationToSam.mode_committed "guidance" 2 working)
                          λ connection. true

  abbrev next_message_receives_what_sam_sends : Bool
  next_message_receives_what_sam_sends =
      unwrap (send to_application writing (new []) (prepare_mode 5 working)) λ server _.
        connected "navigation" server.stream λ client.
          unwrap (next_message to_application reading client)
            λ client message. same_answer message (prepare_mode 5 working)

  abbrev arrives : SamReceiver (List ℕ) → List ℕ → SamReceiver (List ℕ)
  arrives receiver bytes = record {
    reader = record receiver.reader { reader = receiver.reader.reader ++ bytes };
  }

  -- The stream is what it reads, with what it has written.
  abbrev split_sender_and_receiver_operate_independently : Bool
  split_sender_and_receiver_operate_independently =
      let halves =
        into_split (λ stream. stream)
          (record { application = "navigation"; connection = new ([], []) }) in
      unwrap (sender_heartbeat to_sam writing halves.1 healthy startup) λ sender _.
        receives (new sender.writer.writer)
          (ApplicationToSam.heartbeat "navigation" healthy startup)
          λ connection.
            unwrap (send to_application writing (new []) (commit_mode 9 working)) λ server _.
              unwrap (receiver_next_message to_application reading (arrives halves.0 server.stream))
                λ receiver pushed. same_answer pushed (commit_mode 9 working)

-- A byte for each part of a message, with the texts that the tests use.
abbrev text_byte : String → ℕ
text_byte text = if text == "navigation" then 0 else if text == "guidance" then 1 else 2

abbrev text_of : ℕ → String
text_of byte =
    if byte == 0 then "navigation" else if byte == 1 then "guidance" else "solution unavailable"

abbrev mode_byte : SystemMode → ℕ
mode_byte startup = 0
mode_byte standby = 1
mode_byte working = 2

abbrev mode_of : ℕ → SystemMode
mode_of byte = if byte == 0 then startup else if byte == 1 then standby else working

abbrev health_byte : HealthState → ℕ
health_byte healthy = 0
health_byte degraded = 1
health_byte failed = 2

abbrev health_of : ℕ → HealthState
health_of byte = if byte == 0 then healthy else if byte == 1 then degraded else failed

abbrev encode : ApplicationToSam → List ℕ
encode (ApplicationToSam.register a v) = 0 ∷ text_byte a ∷ v ∷ []
encode (ApplicationToSam.heartbeat a h m) = 1 ∷ text_byte a ∷ health_byte h ∷ mode_byte m ∷ []
encode (ApplicationToSam.mode_ready a i) = 2 ∷ text_byte a ∷ i ∷ []
encode (ApplicationToSam.mode_rejected a i r) = 3 ∷ text_byte a ∷ i ∷ text_byte r ∷ []
encode (ApplicationToSam.mode_committed a i m) = 4 ∷ text_byte a ∷ i ∷ mode_byte m ∷ []

abbrev decode : List ℕ → Result ApplicationToSam (Unit {0})
decode (tag ∷ a ∷ i ∷ []) =
    if tag == 0
    then ok (ApplicationToSam.register (text_of a) i)
    else ok (ApplicationToSam.mode_ready (text_of a) i)
decode (tag ∷ a ∷ i ∷ b ∷ []) =
    if tag == 1
    then ok (ApplicationToSam.heartbeat (text_of a) (health_of i) (mode_of b))
    else if tag == 3
    then ok (ApplicationToSam.mode_rejected (text_of a) i (text_of b))
    else ok (ApplicationToSam.mode_committed (text_of a) i (mode_of b))
decode _ = err tt

abbrev to_sam_codec : Postcard (Unit {0}) ApplicationToSam
to_sam_codec = record { to_allocvec = λ message. ok (encode message); from_bytes = decode }

-- The tests send two of the messages of SAM.
abbrev encode_answer : SamToApplication → Result (List ℕ) (Unit {0})
encode_answer (prepare_mode i m) = ok (1 ∷ i ∷ mode_byte m ∷ [])
encode_answer (commit_mode i m) = ok (2 ∷ i ∷ mode_byte m ∷ [])
encode_answer _ = err tt

abbrev decode_answer : List ℕ → Result SamToApplication (Unit {0})
decode_answer (tag ∷ i ∷ m ∷ []) =
    if tag == 1 then ok (prepare_mode i (mode_of m)) else ok (commit_mode i (mode_of m))
decode_answer _ = err tt

abbrev to_application_codec : Postcard (Unit {0}) SamToApplication
to_application_codec = record { to_allocvec = encode_answer; from_bytes = decode_answer }

client_tests_hold :
    (register_sends_application_id_and_protocol_version to_sam_codec to_application_codec ≡ true)
    × (heartbeat_ready_rejected_and_committed_carry_the_right_fields to_sam_codec
          to_application_codec
        ≡ true)
    × (next_message_receives_what_sam_sends to_sam_codec to_application_codec ≡ true)
    × (split_sender_and_receiver_operate_independently to_sam_codec to_application_codec ≡ true)
unfolding send receive Halves.send Halves.receive send_frame receive_frame validate_size write_frame
    to_be_bytes from_be_bytes take_exact client_register client_heartbeat client_mode_ready
    client_mode_rejected client_mode_committed sender_heartbeat Messages.register Messages.heartbeat
    Messages.mode_ready Messages.mode_rejected Messages.mode_committed
client_tests_hold = (refl, refl, refl, refl)
