-- ===== src/Transport/Unix.antt =====
-- crates/sam-transport/src/unix.rs: the listener and the client of a Unix socket. What the operating
-- system does is a parameter, with a state `Os`.
use rust_state_machine_cowbo.Prelude.{String, Result, ok, question}
use rust_state_machine_cowbo.Transport.Error.{ErrorKind, TransportError, io}
use rust_state_machine_cowbo.Transport.Connection.{FramedConnection}
use rust_state_machine_cowbo.Transport.Connection
use rust_state_machine_cowbo.Transport.Endpoint.{LocalEndpoint, as_str}
use rust_state_machine_cowbo.Transport.Endpoint

abbrev pub sam_default : LocalEndpoint
sam_default = Endpoint.new "/tmp/sam.sock"

-- What is used of `UnixListener`, `UnixStream` and `std::fs`.
pub record UnixSockets (Os Listener Stream : Type 0) : Type 0 where
  pub bind : Os → String → Os × Result Listener ErrorKind
  pub accept : Os → Listener → Os × Result Stream ErrorKind
  pub connect : Os → String → Os × Result Stream ErrorKind
  pub remove_file : Os → String → Os × Result (Unit {0}) ErrorKind

pub record LocalListener (Listener : Type 0) : Type 0 where
  pub listener : Listener
  pub socket_path : String

module _ {Os Listener Stream E : Type 0} (sockets : UnixSockets Os Listener Stream) where
  unfoldable pub bind : Os → LocalEndpoint → Os × Result (LocalListener Listener) (TransportError E)
  bind os endpoint =
      question io (sockets.bind os (as_str endpoint))
        λ os listener. (os, ok (record { listener = listener; socket_path = as_str endpoint }))

  unfoldable pub accept :
      Os → LocalListener Listener → Os × Result (FramedConnection Stream) (TransportError E)
  accept os bound =
      question io (sockets.accept os bound.listener) λ os stream. (os, ok (Connection.new stream))

  unfoldable pub connect :
      Os → LocalEndpoint → Os × Result (FramedConnection Stream) (TransportError E)
  connect os endpoint =
      question io (sockets.connect os (as_str endpoint))
        λ os stream. (os, ok (Connection.new stream))

-- The result of `remove_file` is not looked at.
unfoldable pub drop :
    {Os Listener Stream : Type 0}
    → UnixSockets Os Listener Stream
    → Os
    → LocalListener Listener
    → Os
drop sockets os bound = (sockets.remove_file os bound.socket_path).0
