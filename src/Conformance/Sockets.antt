-- ===== src/Conformance/Sockets.antt =====
-- The unit tests of crates/sam-transport/src/unix.rs and windows.rs that bind, accept and connect, on an
-- operating system that is the list of the sockets' files, or of the instances of pipes that wait.
use rust_state_machine_cowbo.Prelude.{
  ℕ, zero, suc, ◌+◌, Bool, true, false, not, ◌&&◌, String, [], some, Result, ok, err, ◌≡◌, refl,
  string_eq, nat_eq, if◌then◌else◌,
}
use rust_state_machine_cowbo.HashSet.{HashSet, contains, remove}
use rust_state_machine_cowbo.HashSet
use rust_state_machine_cowbo.Transport.Error.{any_other_kind}
use rust_state_machine_cowbo.Transport.Endpoint
use rust_state_machine_cowbo.Transport.Unix.{UnixSockets}
use rust_state_machine_cowbo.Transport.Unix
use rust_state_machine_cowbo.Transport.Windows.{NamedPipes, OsError, starts_with, arm, connect_loop}
use rust_state_machine_cowbo.Transport.Windows
use rust_state_machine_cowbo.Conformance.Unwrap.{unwrap, is_io}

abbrev Files : Type 0
Files = HashSet String

-- A stream is the path that it was opened with.
abbrev sockets : UnixSockets Files String String
sockets = record {
  bind = λ os path.
      if contains path os then (os, err any_other_kind) else (HashSet.insert path os, ok path);
  accept = λ os listener. (os, ok listener);
  connect = λ os path. if contains path os then (os, ok path) else (os, err any_other_kind);
  remove_file = λ os path. (remove path os, ok tt);
}

abbrev endpoint : Endpoint.LocalEndpoint
endpoint = Endpoint.new "/tmp/sam-transport-test.sock"

abbrev listener_accepts_multiple_clients_without_rebinding : Bool
listener_accepts_multiple_clients_without_rebinding =
    unwrap (Unix.bind {E = Unit {0}} sockets [] endpoint) λ os listener.
      unwrap (Unix.connect {E = Unit {0}} sockets os endpoint) λ os first_client.
        unwrap (Unix.accept {E = Unit {0}} sockets os listener) λ os first_server.
          unwrap (Unix.connect {E = Unit {0}} sockets os endpoint) λ os second_client.
            unwrap (Unix.accept {E = Unit {0}} sockets os listener) λ os second_server. true

abbrev bind_fails_when_socket_file_already_exists : Bool
bind_fails_when_socket_file_already_exists =
    unwrap (Unix.bind {E = Unit {0}} sockets [] endpoint)
      λ os first. is_io (Unix.bind {E = Unit {0}} sockets os endpoint).1

abbrev dropping_the_listener_removes_its_socket_file : Bool
dropping_the_listener_removes_its_socket_file =
    unwrap (Unix.bind {E = Unit {0}} sockets [] endpoint) λ os listener.
      contains (Endpoint.as_str endpoint) os
      && not (contains (Endpoint.as_str endpoint) (Unix.drop sockets os listener))

unix_tests_hold :
    (listener_accepts_multiple_clients_without_rebinding ≡ true)
    × (bind_fails_when_socket_file_already_exists ≡ true)
    × (dropping_the_listener_removes_its_socket_file ≡ true)
unfolding Unix.bind Unix.connect Unix.accept Unix.drop contains remove HashSet.insert
unix_tests_hold = (refl, refl, refl)

-- The time, and how many instances of the pipe wait for a client. A client takes one of them, and
-- finds the pipe busy without one.
record Pipes : Type 0 where
  time : ℕ
  waiting : ℕ

abbrev busy : OsError
busy = record { kind = any_other_kind; raw_os_error = some 231 }

abbrev open_pipe : Pipes → Pipes × Result (Unit {0}) OsError
open_pipe os = elim os.waiting [
  | zero ↦ (os, err busy)
  | suc n ↦ (record os { waiting = n }, ok tt)
]

abbrev pipes : NamedPipes Pipes (Unit {0}) (Unit {0})
pipes = record {
  create = λ os first name. (record os { waiting = os.waiting + 1 }, ok tt);
  connect = λ os server. (os, ok tt);
  open_client = λ os name. open_pipe os;
  now = λ os. os.time;
  sleep = λ os d. record os { time = os.time + d };
}

abbrev start : Pipes
start = record { time = 0; waiting = 0 }

abbrev bind_rejects_endpoint_without_pipe_prefix : Bool
bind_rejects_endpoint_without_pipe_prefix =
    is_io (Windows.bind {E = Unit {0}} pipes start (Endpoint.new "C:\\not\\a\\pipe")).1

abbrev pipe : Endpoint.LocalEndpoint
pipe = Endpoint.new "\\\\.\\pipe\\sam-transport-test"

-- `connect(&endpoint).await.unwrap()`
abbrev connects : Pipes → (Pipes → Bool) → Bool
connects os rest =
    let opened = Windows.connect {E = Unit {0}} pipes os pipe in
    elim opened.1 [ some (ok client) ↦ rest opened.0 | _ ↦ false ]

-- `listener.accept().await.unwrap()`
abbrev accepts :
    Pipes
    → Windows.LocalListener (Unit {0})
    → (Pipes → Windows.LocalListener (Unit {0}) → Bool)
    → Bool
accepts os listener rest =
    unwrap (Windows.accept {E = Unit {0}} pipes os listener) λ after server. rest after.0 after.1

abbrev listener_accepts_a_second_client_after_the_first_disconnects : Bool
listener_accepts_a_second_client_after_the_first_disconnects =
    unwrap (Windows.bind {E = Unit {0}} pipes start pipe) λ os listener. connects os λ os.
      accepts os listener λ os listener. connects os λ os. accepts os listener λ os listener. true

windows_tests_hold :
    (bind_rejects_endpoint_without_pipe_prefix ≡ true)
    × (listener_accepts_a_second_client_after_the_first_disconnects ≡ true)
unfolding Windows.bind Windows.connect Windows.accept starts_with arm connect_loop
windows_tests_hold = (refl, refl)
