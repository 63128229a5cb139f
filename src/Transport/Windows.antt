-- ===== src/Transport/Windows.antt =====
-- crates/sam-transport/src/windows.rs: the listener of a named pipe, which keeps one instance of it
-- ready for the next client, and the client, which tries again for a while. What the operating system
-- does is a parameter, with a state `Os`; a time is in nanoseconds.
use Prim.Native.Char.{code}
use rust_state_machine_cowbo.Prelude.{
  ℕ, zero, suc, ◌+◌, ◌*◌, String, Bool, true, false, not, ◌||◌, Option, none, some, Result, ok, err,
  ◌==◌, nat_eq, if◌then◌else◌, ltb, question,
}
use rust_state_machine_cowbo.Core.Registry.{Instant}
use rust_state_machine_cowbo.Core.Health.{Duration}
use rust_state_machine_cowbo.Transport.Error.{
  ErrorKind, not_connected, invalid_input, TransportError, io, connect_timeout,
}
use rust_state_machine_cowbo.Transport.Connection.{FramedConnection}
use rust_state_machine_cowbo.Transport.Connection
use rust_state_machine_cowbo.Transport.Endpoint.{LocalEndpoint, as_str}
use rust_state_machine_cowbo.Transport.Endpoint

abbrev pub sam_default : LocalEndpoint
sam_default = Endpoint.new "\\\\.\\pipe\\sam"

-- An `io::Error` of the operating system: its kind, and its code if it has one.
pub record OsError : Type 0 where
  pub kind : ErrorKind
  pub raw_os_error : Option ℕ

-- What is used of tokio's named pipes and its clock. `first_pipe_instance` is the argument of `create`.
pub record NamedPipes (Os Server Client : Type 0) : Type 0 where
  pub create : Os → Bool → String → Os × Result Server OsError
  pub connect : Os → Server → Os × Result (Unit {0}) OsError
  pub open_client : Os → String → Os × Result Client OsError
  pub now : Os → Instant
  pub sleep : Os → Duration → Os

abbrev error_file_not_found : ℕ
error_file_not_found = 2

abbrev error_pipe_busy : ℕ
error_pipe_busy = 231

abbrev pub connect_limit : Duration
connect_limit = 5 * 1000000000

abbrev pub retry_delay : Duration
retry_delay = 25 * 1000000

-- `From<io::Error>`.
abbrev pub from_os : {E : Type 0} → OsError → TransportError E
from_os e = io e.kind

unfoldable pub retryable : OsError → Bool
retryable e = elim e.raw_os_error [
  | none ↦ false
  | some raw ↦ raw == error_file_not_found || raw == error_pipe_busy
]

unfoldable pub starts_with : String → String → Bool
starts_with text String.[] = true
starts_with String.[] (String.◌∷◌ c prefix) = false
starts_with (String.◌∷◌ d text) (String.◌∷◌ c prefix) =
    let rest = starts_with text prefix in if code d == code c then rest else false

pub record LocalListener (Server : Type 0) : Type 0 where
  pub pipe_name : String
  pub pending : Option Server

module _ {Os Server Client E : Type 0} (pipes : NamedPipes Os Server Client) where
  unfoldable pub bind : Os → LocalEndpoint → Os × Result (LocalListener Server) (TransportError E)
  bind os endpoint =
      let created =
        question from_os (pipes.create os true (as_str endpoint))
          λ os server. (os, ok (record { pipe_name = as_str endpoint; pending = some server })) in
      if not (starts_with (as_str endpoint) "\\\\.\\pipe\\")
      then (os, err (io invalid_input))
      else created

  -- The rest of `accept`, once `take` has left nothing pending.
  unfoldable pub arm :
      Os
      → LocalListener Server
      → Server
      → (Os × LocalListener Server) × Result (FramedConnection Server) (TransportError E)
  arm os listener server =
      let connected = pipes.connect os server in
      let created = pipes.create connected.0 false listener.pipe_name in
      elim connected.1 [
        | err e ↦ ((connected.0, listener), err (from_os e))
        | ok _ ↦ elim created.1 [
          | err e ↦ ((created.0, listener), err (from_os e))
          | ok next ↦
              ((created.0, record listener { pending = some next }), ok (Connection.new server))
        ]
      ]

  unfoldable pub accept :
      Os
      → LocalListener Server
      → (Os × LocalListener Server) × Result (FramedConnection Server) (TransportError E)
  accept os listener = elim listener.pending [
    | none ↦ ((os, listener), err (io not_connected))
    | some server ↦ arm os (record listener { pending = none }) server
  ]

  -- The loop of `connect`, with at most `fuel` rounds.
  unfoldable pub connect_loop :
      ℕ
      → Os
      → LocalEndpoint
      → Instant
      → Os × Option (Result (FramedConnection Client) (TransportError E))
  connect_loop zero os endpoint deadline = (os, none)
  connect_loop (suc fuel) os endpoint deadline =
      let opened = pipes.open_client os (as_str endpoint) in
      let again = connect_loop fuel (pipes.sleep opened.0 retry_delay) endpoint deadline in
      elim opened.1 [
        | ok client ↦ (opened.0, some (ok (Connection.new client)))
        | err e ↦
            if retryable e
            then if ltb (pipes.now opened.0) deadline
              then again
              else (opened.0, some (err connect_timeout))
            else (opened.0, some (err (from_os e)))
      ]

  -- One round for each delay in the limit, and one more.
  unfoldable pub connect :
      Os → LocalEndpoint → Os × Option (Result (FramedConnection Client) (TransportError E))
  connect os endpoint = connect_loop 201 os endpoint (pipes.now os + connect_limit)
