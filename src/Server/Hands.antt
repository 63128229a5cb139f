-- ===== src/Server/Hands.antt =====
-- A step of one task of the server leaves the connections of the other tasks alone.
use rust_state_machine_cowbo.Prelude.{
  Option, none, some, Result, ok, err, ◌==◌, nat_eq, string_eq, ◌≡◌, refl, sym, ◌∙◌, ◌⊎◌, inl, inr,
  Result-cases, Option-cases, Bool-cases, arith,
}
use text.Mathlib.TextEquality.{eq_iff}
use rust_state_machine_cowbo.HashMap.{get-insert, get-remove}
use rust_state_machine_cowbo.Protocol.{
  ApplicationId, ApplicationToSam, SamToApplication, protocol_version,
}
use rust_state_machine_cowbo.Core.Registry.{Instant}
use rust_state_machine_cowbo.Transport.Error.{TransportError}
use rust_state_machine_cowbo.Service.State.{ServiceState, ConnectionId}
use rust_state_machine_cowbo.Service.Methods.{register, disconnect}
use rust_state_machine_cowbo.Service.Messages.{handle_message}
use rust_state_machine_cowbo.Service.Delivery.{id-deliver_all}
use rust_state_machine_cowbo.Service.Connections.{current_id, message-Keeps}
use rust_state_machine_cowbo.Server.{ServerError, SessionEvent, outgoing, incoming, session_step}
use rust_state_machine_cowbo.Server.Program.{
  Task, awaiting, active, leaving, finished, TaskEvent, begins, sends, receives, cleans_up, begin,
  turn, clean_up, task_step,
}

-- The task has this connection of the application, and is not done with it.
abbrev pub Serves : {C E : Type 0} → ApplicationId → ConnectionId → Task C E → Type 0
Serves a id (awaiting c) = ⊥
Serves a id (active c application i) = (application ≡ a) × (i ≡ id)
Serves a id (leaving c application i result) = (application ≡ a) × (i ≡ id)
Serves a id (finished c result) = ⊥

-- A step of one task leaves the clients, but for the connection of the task.
abbrev pub Hands :
    {C E Sender : Type 0} → ServiceState Sender × Task C E → ServiceState Sender × Task C E → Type 0
Hands (s, task) (s', task') =
    (a : ApplicationId) (id : ConnectionId)
    → current_id a s'.clients ≡ some id
    → Serves a id task'
      ⊎ ((current_id a s.clients ≡ some id) × (Serves a id task → Serves a id task'))

module _ {Sender C E : Type 0} (try_send : Sender → SamToApplication → Option Sender)
    (send : C → SamToApplication → C × Result (Unit {0}) (TransportError E)) where
  register_ok :
      (s : ServiceState Sender) (a b : ApplicationId) (outbound : Sender) (now : Instant)
      {id id' : ConnectionId}
      → (register try_send s b outbound now).1 ≡ ok id'
      → current_id a (register try_send s b outbound now).0.clients ≡ some id
      → ((b ≡ a) × (id' ≡ id)) ⊎ (current_id a s.clients ≡ some id)
  unfolding register
  register_ok s a b outbound now h k = grind (arith, get-insert, eq_iff b a)

  register_err :
      (s : ServiceState Sender) (a b : ApplicationId) (outbound : Sender) (now : Instant) {e : _}
      → (register try_send s b outbound now).1 ≡ err e
      → (register try_send s b outbound now).0.clients ≡ s.clients
  unfolding register
  register_err s a b outbound now h = ground arith

  disconnect_current :
      (s : ServiceState Sender) (a b : ApplicationId) (i : ConnectionId) (now : Instant)
      {id : ConnectionId}
      → current_id a (disconnect try_send s b i now).0.clients ≡ some id
      → (current_id a s.clients ≡ some id) × ((b ≡ a) × (i ≡ id) → ⊥)
  unfolding disconnect
  disconnect_current s a b i now k =
      grind (arith, id-deliver_all try_send, get-remove a b s.clients, eq_iff b a)

  begin-Hands :
      (s : ServiceState Sender) (c : C)
      (first : Option (Result ApplicationToSam (TransportError E))) (outbound : Sender)
      (now : Instant)
      → Hands (s, awaiting c) (begin try_send send s c first outbound now)
  unfolding begin
  begin-Hands s c none outbound now a id k = inr (k, λ e. e)
  begin-Hands s c (some (err e)) outbound now a id k = inr (k, λ e. e)
  begin-Hands s c (some (ok (ApplicationToSam.register b v))) outbound now a id k =
      elim (Bool-cases (v == protocol_version)) [
        | inr p ↦ inr (ground (arith, p, k), λ e. absurd e)
        | inl p ↦ elim (Result-cases (register try_send s b outbound now).1) [
          | inr (x, q) ↦
              inr (ground (arith, p, q, k, register_err s a b outbound now q), λ e. absurd e)
          | inl (i, q) ↦
              elim (register_ok s a b outbound now {id = id} q (ground (arith, p, q, k))) [
                | inl f ↦ inl (ground (arith, p, q, f))
                | inr f ↦ inr (f, λ e. absurd e)
              ]
        ]
      ]
  begin-Hands s c (some (ok (ApplicationToSam.heartbeat b v m))) outbound now a id k =
      inr (k, λ e. e)
  begin-Hands s c (some (ok (ApplicationToSam.mode_ready b i))) outbound now a id k =
      inr (k, λ e. e)
  begin-Hands s c (some (ok (ApplicationToSam.mode_rejected b i reason))) outbound now a id k =
      inr (k, λ e. e)
  begin-Hands s c (some (ok (ApplicationToSam.mode_committed b i m))) outbound now a id k =
      inr (k, λ e. e)

  turn-Hands :
      (s : ServiceState Sender) (c : C) (b : ApplicationId) (i : ConnectionId)
      (event : SessionEvent E Sender)
      → ((a : ApplicationId)
          → current_id a (session_step try_send send s c b i event).0.0.clients
            ≡ current_id a s.clients)
      → Hands (s, active c b i) (turn try_send send s c b i event)
  unfolding turn
  turn-Hands s c b i event same a id k =
      let done = session_step try_send send s c b i event in
      elim (Option-cases done.1) [
        | inl q ↦ inr (sym (same a) ∙ ground (arith, q, k), λ e. ground (arith, q, e))
        | inr (x, q) ↦ inr (sym (same a) ∙ ground (arith, q, k), λ e. ground (arith, q, e))
      ]

  clean_up-Hands :
      (s : ServiceState Sender) (c : C) (b : ApplicationId) (i : ConnectionId)
      (result : Result (Unit {0}) (ServerError E)) (now : Instant)
      → Hands (s, leaving c b i result) (clean_up try_send send s c b i result now)
  unfolding clean_up
  clean_up-Hands s c b i result now a id k =
      let (same, other) = disconnect_current s a b i now k in inr (same, other)

  receive_same :
      (s : ServiceState Sender) (c : C) (b : ApplicationId) (i : ConnectionId)
      (message : Result ApplicationToSam (TransportError E)) (now : Instant) (a : ApplicationId)
      → current_id a (session_step try_send send s c b i (incoming message now)).0.0.clients
        ≡ current_id a s.clients
  unfolding session_step
  receive_same s c b i (ok message) now a =
      elim (Result-cases (handle_message try_send s b i message now).1) [
        | inl (_, q) ↦ ground (arith, q, message-Keeps try_send s a b i message now)
        | inr (_, q) ↦ ground (arith, q, message-Keeps try_send s a b i message now)
      ]
  receive_same s c b i (err e) now a = ground arith

  send_same :
      (s : ServiceState Sender) (c : C) (b : ApplicationId) (i : ConnectionId)
      (message : Option SamToApplication) (a : ApplicationId)
      → current_id a (session_step try_send send s c b i (outgoing message)).0.0.clients
        ≡ current_id a s.clients
  unfolding session_step
  send_same s c b i none a = refl
  send_same s c b i (some message) a = ground arith

  pub task_step-Hands :
      (s : ServiceState Sender) (task : Task C E) (event : TaskEvent E Sender)
      → Hands (s, task) (task_step try_send send s task event)
  unfolding task_step
  task_step-Hands s (awaiting c) (begins first outbound now) = begin-Hands s c first outbound now
  task_step-Hands s (awaiting c) (sends message) = λ a id k. inr (k, λ e. e)
  task_step-Hands s (awaiting c) (receives message now) = λ a id k. inr (k, λ e. e)
  task_step-Hands s (awaiting c) (cleans_up now) = λ a id k. inr (k, λ e. e)
  task_step-Hands s (active c b i) (begins first outbound now) = λ a id k. inr (k, λ e. e)
  task_step-Hands s (active c b i) (sends message) =
      turn-Hands s c b i (outgoing message) (send_same s c b i message)
  task_step-Hands s (active c b i) (receives message now) =
      turn-Hands s c b i (incoming message now) (receive_same s c b i message now)
  task_step-Hands s (active c b i) (cleans_up now) = λ a id k. inr (k, λ e. e)
  task_step-Hands s (leaving c b i r) (begins first outbound now) = λ a id k. inr (k, λ e. e)
  task_step-Hands s (leaving c b i r) (sends message) = λ a id k. inr (k, λ e. e)
  task_step-Hands s (leaving c b i r) (receives message now) = λ a id k. inr (k, λ e. e)
  task_step-Hands s (leaving c b i r) (cleans_up now) = clean_up-Hands s c b i r now
  task_step-Hands s (finished c r) event = λ a id k. inr (k, λ e. e)
