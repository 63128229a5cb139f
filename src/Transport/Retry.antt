-- ===== src/Transport/Retry.antt =====
-- crates/sam-transport/src/windows.rs: the client of a named pipe does not try for ever, and the
-- listener is closed by its first failure.
use rust_state_machine_cowbo.Prelude.{
  ℕ, zero, suc, ◌+◌, ◌*◌, ◌≤◌, String, false, Option, none, some, Result, ok, err, ltb, ◌≡◌, refl,
  ◌⊎◌, inl, inr, arith, Bool-cases, Result-cases, Option-cases, sym, subst,
}
use rust_state_machine_cowbo.Core.Registry.{Instant}
use rust_state_machine_cowbo.Core.Health.{Duration}
use rust_state_machine_cowbo.Transport.Error.{TransportError, io, not_connected, connect_timeout}
use rust_state_machine_cowbo.Transport.Connection.{FramedConnection}
use rust_state_machine_cowbo.Transport.Connection
use rust_state_machine_cowbo.Transport.Endpoint.{LocalEndpoint, as_str}
use rust_state_machine_cowbo.Transport.Windows.{
  NamedPipes, OsError, from_os, LocalListener, retryable, retry_delay, connect_limit, arm, accept,
  connect_loop, connect,
}

-- The clock does not go back while a pipe is opened, and a sleep takes its time.
pub record ClockAdvances {Os Server Client : Type 0} (pipes : NamedPipes Os Server Client)
    : Type 0 where
  pub open_takes :
      (os : Os) (name : String) → pipes.now os ≤ pipes.now (pipes.open_client os name).0
  pub sleep_takes : (os : Os) (d : Duration) → pipes.now os + d ≤ pipes.now (pipes.sleep os d)

module _ {Os Server Client E : Type 0} (pipes : NamedPipes Os Server Client) where
  -- How a search for the pipe ends.
  abbrev pub Ends :
      Instant → Os × Option (Result (FramedConnection Client) (TransportError E)) → Type 0
  Ends deadline x =
      ((client : Client) × (x.1 ≡ some (ok (Connection.new client))))
      ⊎ ((x.1 ≡ some (err connect_timeout)) × (deadline ≤ pipes.now x.0))
      ⊎ ((e : OsError) × (x.1 ≡ some (err (from_os e))) × (retryable e ≡ false))

  -- One round, by what the open brings.
  connect_loop_round :
      (fuel : ℕ) (os : Os) (endpoint : LocalEndpoint) (deadline : Instant)
      → (let opened = pipes.open_client os (as_str endpoint) in
          let x = connect_loop {E = E} pipes (suc fuel) os endpoint deadline in
          Ends deadline x
          ⊎ ((pipes.now opened.0 + 1 ≤ deadline)
              × (x ≡ connect_loop pipes fuel (pipes.sleep opened.0 retry_delay) endpoint deadline)))
  unfolding connect_loop
  connect_loop_round fuel os endpoint deadline =
      let opened = pipes.open_client os (as_str endpoint) in
      elim (Result-cases opened.1) [
        | inl (client, q) ↦ inl (inl (client, rw (connect_loop, q) refl))
        | inr (e, q) ↦ elim (Bool-cases (retryable e)) [
          | inr final ↦ inl (inr (inr (e, rw (connect_loop, q, final) refl, final)))
          | inl again ↦ elim (Bool-cases (ltb (pipes.now opened.0) deadline)) [
            | inr late ↦ inl (
                inr (
                  inl (
                    rw (connect_loop, q, again, late) refl,
                    rw (connect_loop, q, again, late) (ground (arith, late)),
                  )))
            | inl early ↦ inr (ground (arith, early), rw (connect_loop, q, again, early) refl)
          ]
        ]
      ]

  connect_loop-Ends :
      (fuel : ℕ) (os : Os) (endpoint : LocalEndpoint) (deadline : Instant)
      → ClockAdvances pipes
      → deadline ≤ pipes.now os + fuel * retry_delay
      → Ends deadline (connect_loop pipes (suc fuel) os endpoint deadline)
  connect_loop-Ends zero os endpoint deadline clock h =
      elim (connect_loop_round zero os endpoint deadline) [
        | inl ends ↦ ends
        | inr (early, _) ↦ absurd (omega (arith, early, h, clock.open_takes os (as_str endpoint)))
      ]
  connect_loop-Ends (suc fuel) os endpoint deadline clock h =
      let opened = (pipes.open_client os (as_str endpoint)).0 in
      elim (connect_loop_round (suc fuel) os endpoint deadline) [
        | inl ends ↦ ends
        | inr (_, e) ↦ subst (Ends deadline) (sym e) (
            connect_loop-Ends fuel (pipes.sleep opened retry_delay) endpoint deadline clock (
              omega (
                arith,
                h,
                clock.open_takes os (as_str endpoint),
                clock.sleep_takes opened retry_delay,
              )))
      ]

  -- Where the clock advances, `connect` ends: with a connection, with `ConnectTimeout` when five
  -- seconds or more have passed, or with the error of an open that is not one to try again after.
  pub connect_ends :
      (os : Os) (endpoint : LocalEndpoint)
      → ClockAdvances pipes
      → ((client : Client) × ((connect {E = E} pipes os endpoint).1
            ≡ some (ok (Connection.new client))))
        ⊎ (((connect {E = E} pipes os endpoint).1 ≡ some (err connect_timeout))
            × (pipes.now os + 5 * 1000000000 ≤ pipes.now (connect {E = E} pipes os endpoint).0))
        ⊎ ((e : OsError) × ((connect {E = E} pipes os endpoint).1 ≡ some (err (from_os e)))
            × (retryable e ≡ false))
  unfolding connect
  connect_ends os endpoint clock =
      connect_loop-Ends 200 os endpoint (pipes.now os + connect_limit) clock (omega arith)

  accept_closed :
      (os : Os) (listener : LocalListener Server)
      → listener.pending ≡ none
      → accept {E = E} pipes os listener ≡ ((os, listener), err (io not_connected))
  unfolding accept
  accept_closed os listener p = rw p refl

  -- An `accept` hands out the instance that was pending and arms another; after a failure nothing is
  -- pending, and every later `accept` fails with `NotConnected`, without a call of the system.
  pub accept_rearms :
      (os : Os) (listener : LocalListener Server)
      → ((server next : Server) × (listener.pending ≡ some server)
          × ((accept {E = E} pipes os listener).1 ≡ ok (Connection.new server))
          × ((accept {E = E} pipes os listener).0.1
              ≡ record { pipe_name = listener.pipe_name; pending = some next }))
        ⊎ ((e : TransportError E) × ((accept pipes os listener).1 ≡ err e)
            × ((later : Os)
                → accept {E = E} pipes later (accept {E = E} pipes os listener).0.1
                  ≡ ((later, (accept {E = E} pipes os listener).0.1), err (io not_connected))))
  unfolding accept arm
  accept_rearms os listener = elim (Option-cases listener.pending) [
    | inl p ↦ inr (failed (io not_connected) (rw (accept, p) refl) (rw (accept, p) refl))
    | inr (server, p) ↦
        let connected = pipes.connect os server in
        let created = pipes.create connected.0 false listener.pipe_name in
        elim (Result-cases connected.1) [
          | inr (e, q) ↦ inr (failed (from_os e) (ground (arith, p, q)) (ground (arith, p, q)))
          | inl (_, q) ↦ elim (Result-cases created.1) [
            | inr (e, r) ↦
                inr (failed (from_os e) (ground (arith, p, q, r)) (ground (arith, p, q, r)))
            | inl (next, r) ↦
                inl (server, next, p, ground (arith, p, q, r), ground (arith, p, q, r))
          ]
        ]
  ]
    where
      closed : LocalListener Server
      closed = (accept {E = E} pipes os listener).0.1

      failed :
          (e : TransportError E)
          → (accept pipes os listener).1 ≡ err e
          → closed.pending ≡ none
          → (e : TransportError E) × ((accept pipes os listener).1 ≡ err e)
            × ((later : Os)
                → accept {E = E} pipes later closed ≡ ((later, closed), err (io not_connected)))
      failed e q p = (e, q, λ later. accept_closed later closed p)
