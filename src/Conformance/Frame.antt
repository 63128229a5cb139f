-- ===== src/Conformance/Frame.antt =====
-- The unit tests of crates/sam-transport/src/frame.rs. The bytes that one end of the pair has written
-- are what the other end reads, and a read past them finds that the writer is gone.
use rust_state_machine_cowbo.Prelude.{
  if◌then◌else◌, ℕ, String, Bool, true, false, ◌&&◌, List, [], ◌∷◌, Result, ok, err, ◌==◌, ◌≡◌,
  refl, string_eq, nat_eq,
}
use rust_state_machine_cowbo.Transport.Error.{TransportError, frame_too_large}
use rust_state_machine_cowbo.Transport.Streams.{Postcard}
use rust_state_machine_cowbo.Transport.Frame.{
  to_be_bytes, from_be_bytes, validate_size, write_frame, send_frame, receive_frame,
}
use rust_state_machine_cowbo.Transport.Connection.{
  new, with_max_frame_size, into_split, send, receive,
}
use rust_state_machine_cowbo.Transport.Halves
use rust_state_machine_cowbo.Transport.Tests.{reading, writing, take_exact}
use rust_state_machine_cowbo.Conformance.Unwrap.{unwrap, is_io}

record TestMessage : Type 0 where
  id : ℕ
  text : String

abbrev sample_message : TestMessage
sample_message = record { id = 7; text = "hello" }

abbrev same : TestMessage → TestMessage → Bool
same a b = a.id == b.id && a.text == b.text

module _ {E : Type 0} (postcard : Postcard E TestMessage) where
  abbrev send_then_receive_round_trips_a_message : Bool
  send_then_receive_round_trips_a_message =
      unwrap (send postcard writing (new []) sample_message) λ client _.
        unwrap (receive postcard reading (new client.stream))
          λ server received. same received sample_message

  abbrev first : TestMessage
  first = record { id = 1; text = "first" }

  abbrev second : TestMessage
  second = record { id = 2; text = "second" }

  abbrev multiple_messages_on_the_same_connection_stay_in_order : Bool
  multiple_messages_on_the_same_connection_stay_in_order =
      unwrap (send postcard writing (new []) first) λ client _.
        unwrap (send postcard writing client second) λ client _.
          unwrap (receive postcard reading (new client.stream)) λ server one.
            unwrap (receive postcard reading server) λ server two. same one first && same two second

  -- The pair of streams at one end: what it reads and what it has written.
  abbrev split_reader_and_writer_still_round_trip : Bool
  split_reader_and_writer_still_round_trip =
      unwrap (send postcard writing (new []) sample_message) λ server _.
        let halves = into_split (λ stream. stream) (new (server.stream, [])) in
        unwrap (Halves.receive postcard reading halves.0) λ client_reader pushed.
          unwrap (Halves.send postcard writing halves.1 sample_message) λ client_writer _.
            unwrap (receive postcard reading (new client_writer.writer))
              λ server received. same pushed sample_message && same received sample_message

  abbrev is_larger_than : {A : Type 0} → ℕ → Result A (TransportError E) → Bool
  is_larger_than limit (err (frame_too_large actual maximum)) = maximum == limit
  is_larger_than limit _ = false

  abbrev send_rejects_a_payload_larger_than_max_frame_size : Bool
  send_rejects_a_payload_larger_than_max_frame_size =
      is_larger_than 4 (send postcard writing (with_max_frame_size [] 4) sample_message).1

  abbrev is_million : {A : Type 0} → Result A (TransportError E) → Bool
  is_million (err (frame_too_large actual maximum)) = actual == 1000000 && maximum == 4
  is_million _ = false

  abbrev receive_rejects_a_length_prefix_larger_than_max_frame_size : Bool
  receive_rejects_a_length_prefix_larger_than_max_frame_size =
      is_million (receive postcard reading (with_max_frame_size (to_be_bytes 1000000) 4)).1

  abbrev receive_on_a_closed_connection_before_any_frame_is_an_io_error : Bool
  receive_on_a_closed_connection_before_any_frame_is_an_io_error =
      is_io (receive postcard reading (new [])).1

  abbrev receive_on_a_connection_closed_mid_frame_is_an_io_error : Bool
  receive_on_a_connection_closed_mid_frame_is_an_io_error =
      is_io (receive postcard reading (new (to_be_bytes 16))).1

-- The encodings of the three messages that the tests send.
abbrev encoding : TestMessage → List ℕ
encoding message =
    if message.id == 7
    then 7 ∷ 5 ∷ 104 ∷ 101 ∷ 108 ∷ 108 ∷ 111 ∷ []
    else if message.id == 1
    then 1 ∷ 5 ∷ 102 ∷ 105 ∷ 114 ∷ 115 ∷ 116 ∷ []
    else 2 ∷ 6 ∷ 115 ∷ 101 ∷ 99 ∷ 111 ∷ 110 ∷ 100 ∷ []

abbrev decoded : List ℕ → Result TestMessage (Unit {0})
decoded [] = err tt
decoded (id ∷ bytes) =
    if id == 7
    then ok (record { id = 7; text = "hello" })
    else if id == 1
    then ok (record { id = 1; text = "first" })
    else ok (record { id = 2; text = "second" })

abbrev codec : Postcard (Unit {0}) TestMessage
codec = record { to_allocvec = λ message. ok (encoding message); from_bytes = decoded }

round_trip_tests_hold :
    (send_then_receive_round_trips_a_message codec ≡ true)
    × (multiple_messages_on_the_same_connection_stay_in_order codec ≡ true)
    × (split_reader_and_writer_still_round_trip codec ≡ true)
unfolding send receive Halves.send Halves.receive send_frame receive_frame validate_size write_frame
    to_be_bytes from_be_bytes take_exact
round_trip_tests_hold = (refl, refl, refl)

refusal_tests_hold :
    (send_rejects_a_payload_larger_than_max_frame_size codec ≡ true)
    × (receive_rejects_a_length_prefix_larger_than_max_frame_size codec ≡ true)
    × (receive_on_a_closed_connection_before_any_frame_is_an_io_error codec ≡ true)
    × (receive_on_a_connection_closed_mid_frame_is_an_io_error codec ≡ true)
unfolding send receive send_frame receive_frame validate_size write_frame to_be_bytes from_be_bytes
    take_exact
refusal_tests_hold = (refl, refl, refl, refl)
