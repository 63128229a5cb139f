-- ===== src/Conformance/Errors.antt =====
-- The unit tests of crates/sam-transport/src/error.rs and of the endpoint in endpoint.rs beside it.
use rust_state_machine_cowbo.Prelude.{
  String, Bool, true, false, not, ◌&&◌, ◌==◌, ◌≡◌, refl, string_eq, display,
}
use rust_state_machine_cowbo.Transport.Error.{
  ErrorKind, unexpected_eof, connection_reset, broken_pipe, any_other_kind, TransportError, io,
  serialization, frame_too_large, connect_timeout, is_disconnect, transport_error_text,
}
use rust_state_machine_cowbo.Transport.Endpoint
use rust_state_machine_cowbo.Transport.Unix
use rust_state_machine_cowbo.Transport.Windows

module _ (E : Type 0) (print_postcard : E → String) where
  abbrev is_io : TransportError E → Bool
  is_io (io kind) = true
  is_io _ = false

  abbrev is_serialization : TransportError E → Bool
  is_serialization (serialization error) = true
  is_serialization _ = false

  abbrev io_error_converts_via_from_and_formats_its_source : Bool
  io_error_converts_via_from_and_formats_its_source =
      is_io (io broken_pipe)
      && transport_error_text (λ kind. "pipe closed") print_postcard (io broken_pipe)
        == "transport I/O failed: pipe closed"

  abbrev postcard_error_converts_via_from : E → Bool
  postcard_error_converts_via_from postcard_error = is_serialization (serialization postcard_error)

  abbrev frame_too_large_formats_both_sizes : Bool
  frame_too_large_formats_both_sizes =
      transport_error_text (λ kind. "") print_postcard (frame_too_large 100 64)
      == "frame size 100 exceeds configured maximum 64"

  abbrev connect_timeout_has_a_fixed_message : Bool
  connect_timeout_has_a_fixed_message =
      transport_error_text (λ kind. "") print_postcard connect_timeout
      == "connection attempt timed out"

  abbrev io_error : ErrorKind → TransportError E
  io_error kind = io kind

  abbrev unexpected_eof_connection_reset_and_broken_pipe_are_disconnects : Bool
  unexpected_eof_connection_reset_and_broken_pipe_are_disconnects =
      is_disconnect (io_error unexpected_eof)
      && is_disconnect (io_error connection_reset)
      && is_disconnect (io_error broken_pipe)

  abbrev other_io_errors_are_not_disconnects : Bool
  other_io_errors_are_not_disconnects = not (is_disconnect (io_error any_other_kind))

  abbrev non_io_errors_are_not_disconnects : Bool
  non_io_errors_are_not_disconnects =
      not (is_disconnect {E = E} connect_timeout)
      && not (is_disconnect {E = E} (frame_too_large 100 10))

  error_tests_hold :
      (e : E)
      → (io_error_converts_via_from_and_formats_its_source ≡ true)
        × (postcard_error_converts_via_from e ≡ true)
        × (frame_too_large_formats_both_sizes ≡ true)
        × (connect_timeout_has_a_fixed_message ≡ true)
        × (unexpected_eof_connection_reset_and_broken_pipe_are_disconnects ≡ true)
        × (other_io_errors_are_not_disconnects ≡ true)
        × (non_io_errors_are_not_disconnects ≡ true)
  unfolding transport_error_text display
  error_tests_hold e = (refl, refl, refl, refl, refl, refl, refl)

abbrev new_and_as_str_round_trip : Bool
new_and_as_str_round_trip = Endpoint.as_str (Endpoint.new "some-endpoint") == "some-endpoint"

abbrev windows_default_is_a_named_pipe_path : Bool
windows_default_is_a_named_pipe_path = Endpoint.as_str Windows.sam_default == "\\\\.\\pipe\\sam"

abbrev unix_default_is_a_socket_path : Bool
unix_default_is_a_socket_path = Endpoint.as_str Unix.sam_default == "/tmp/sam.sock"

endpoint_tests_hold :
    (new_and_as_str_round_trip ≡ true)
    × (windows_default_is_a_named_pipe_path ≡ true)
    × (unix_default_is_a_socket_path ≡ true)
endpoint_tests_hold = (refl, refl, refl)
