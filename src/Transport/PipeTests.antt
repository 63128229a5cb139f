-- ===== src/Transport/PipeTests.antt =====
-- The theorems of the named pipe on a system whose state is its clock, where an open takes a
-- millisecond and finds the pipe busy for ever, and pipes are numbers.
use rust_state_machine_cowbo.Prelude.{
  ℕ, ◌+◌, ◌*◌, ◌≤◌, false, none, some, ok, err, ◌≡◌, refl, ◌⊎◌, arith,
}
use rust_state_machine_cowbo.Transport.Error.{
  TransportError, io, any_other_kind, broken_pipe, not_connected, invalid_input, connect_timeout,
}
use rust_state_machine_cowbo.Transport.Connection
use rust_state_machine_cowbo.Transport.Endpoint
use rust_state_machine_cowbo.Transport.Windows.{
  sam_default, starts_with, NamedPipes, OsError, LocalListener, bind, from_os, retryable, accept,
  connect,
}
use rust_state_machine_cowbo.Transport.Retry.{ClockAdvances, connect_ends, accept_rearms}

abbrev busy : OsError
busy = record { kind = any_other_kind; raw_os_error = some 231 }

abbrev broken : OsError
broken = record { kind = broken_pipe; raw_os_error = none }

abbrev pipes : NamedPipes ℕ ℕ ℕ
pipes = record {
  create = λ os first name. (os, ok 7);
  connect = λ os server. (os, err broken);
  open_client = λ os name. (os + 1000000, err busy);
  now = λ os. os;
  sleep = λ os d. os + d;
}

clock : ClockAdvances pipes
clock = record { open_takes = λ os name. omega arith; sleep_takes = λ os d. omega arith }

-- A unit test of the source.
bind_refuses :
    bind {E = Unit {0}} pipes 0 (Endpoint.new "C:\\not\\a\\pipe") ≡ (0, err (io invalid_input))
unfolding bind starts_with
bind_refuses = refl

bind_accepts :
    (bind {E = Unit {0}} pipes 0 sam_default).1
    ≡ ok (record { pipe_name = "\\\\.\\pipe\\sam"; pending = some 7 })
unfolding bind starts_with
bind_accepts = refl

connect_ends_example :
    ((client : ℕ) × ((connect {E = Unit {0}} pipes 3 sam_default).1
        ≡ some (ok (Connection.new client))))
    ⊎ (((connect {E = Unit {0}} pipes 3 sam_default).1 ≡ some (err connect_timeout))
        × (3 + 5 * 1000000000 ≤ (connect {E = Unit {0}} pipes 3 sam_default).0))
    ⊎ ((e : OsError) × ((connect {E = Unit {0}} pipes 3 sam_default).1 ≡ some (err (from_os e)))
        × (retryable e ≡ false))
connect_ends_example = connect_ends pipes 3 sam_default clock

abbrev listener : LocalListener ℕ
listener = record { pipe_name = "\\\\.\\pipe\\sam"; pending = some 5 }

accept_rearms_example :
    ((server next : ℕ) × (some 5 ≡ some server)
      × ((accept {E = Unit {0}} pipes 3 listener).1 ≡ ok (Connection.new server))
      × ((accept {E = Unit {0}} pipes 3 listener).0.1
          ≡ record { pipe_name = "\\\\.\\pipe\\sam"; pending = some next }))
    ⊎ ((e : TransportError (Unit {0})) × ((accept pipes 3 listener).1 ≡ err e)
        × ((later : ℕ)
            → accept {E = Unit {0}} pipes later (accept {E = Unit {0}} pipes 3 listener).0.1
              ≡ ((later, (accept {E = Unit {0}} pipes 3 listener).0.1), err (io not_connected))))
accept_rearms_example = accept_rearms pipes 3 listener
