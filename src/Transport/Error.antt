-- ===== src/Transport/Error.antt =====
-- crates/sam-transport/src/error.rs. An I/O error is its kind, of which the
-- source names five; an error of postcard is a parameter `E`.
use rust_state_machine_cowbo.Prelude.{ℕ, String, Bool, true, false, ◌<>◌, display}

pub data ErrorKind : Type 0 where
  unexpected_eof connection_reset broken_pipe : ErrorKind
  not_connected invalid_input : ErrorKind
  any_other_kind : ErrorKind

pub data TransportError (E : Type 0) : Type 0 where
  io : (kind : ErrorKind) → TransportError E
  serialization : (error : E) → TransportError E
  frame_too_large : (actual maximum : ℕ) → TransportError E
  connect_timeout : TransportError E

-- The text that `thiserror` derives. How an I/O error and an error of postcard print is a parameter.
unfoldable pub transport_error_text :
    {E : Type 0} → (ErrorKind → String) → (E → String) → TransportError E → String
transport_error_text print_io print_postcard (io kind) = "transport I/O failed: " <> print_io kind
transport_error_text print_io print_postcard (serialization error) =
    "message serialization failed: " <> print_postcard error
transport_error_text print_io print_postcard (frame_too_large actual maximum) =
    "frame size " <> display actual <> " exceeds configured maximum " <> display maximum
transport_error_text print_io print_postcard connect_timeout = "connection attempt timed out"

abbrev pub is_disconnect : {E : Type 0} → TransportError E → Bool
is_disconnect (io unexpected_eof) = true
is_disconnect (io connection_reset) = true
is_disconnect (io broken_pipe) = true
is_disconnect (io not_connected) = false
is_disconnect (io invalid_input) = false
is_disconnect (io any_other_kind) = false
is_disconnect (serialization error) = false
is_disconnect (frame_too_large actual maximum) = false
is_disconnect connect_timeout = false
