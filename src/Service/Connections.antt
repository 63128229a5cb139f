-- ===== src/Service/Connections.antt =====
-- Connection ids: a connection that another one has replaced has no say any more.
use rust_state_machine_cowbo.Prelude.{
  ◌+◌, ◌^◌, ◌≤◌, ◌<◌, String, List, [], ◌∷◌, Option, none, some, ok, err, ◌≡◌, refl, sym, arith,
  string_eq, nat_eq, length, ◌∙◌, subst,
}
use mathlib.Core.Option
use text.Mathlib.TextEquality.{eq_iff}
use rust_state_machine_cowbo.HashMap.{HashMap, is_some, is_some_and, get-insert, get-remove}
use rust_state_machine_cowbo.HashMap
use rust_state_machine_cowbo.Protocol.{
  SystemMode, HealthState, ApplicationId, ApplicationToSam, SamToApplication, TransitionId,
}
use rust_state_machine_cowbo.Core.Mode.{wrapping_add}
use rust_state_machine_cowbo.Core.Registry.{Instant}
use rust_state_machine_cowbo.Service.State.{
  ServiceState, ConnectionId, ClientConnection, verify_connection, stale_connection,
}
use rust_state_machine_cowbo.Service.Methods.{register, disconnect}
use rust_state_machine_cowbo.Service.Messages.{
  handle_message, dispatch, on_heartbeat, on_mode_ready, on_mode_rejected, on_mode_committed,
}
use rust_state_machine_cowbo.Service.Operations.{message_rule}
use rust_state_machine_cowbo.Service.Delivery.{id-deliver_all}
use rust_state_machine_cowbo.Service.Calls.{
  Call, registers, disconnects, messages, requests, refreshes, step, run,
}

-- The id of the current connection of an application.
abbrev pub current_id :
    {Sender : Type 0}
    → ApplicationId
    → HashMap ApplicationId (ClientConnection Sender)
    → Option ConnectionId
current_id a clients = Option.map (λ c. c.id) (HashMap.get a clients)

-- The counter and the current id are what they were.
abbrev pub Keeps :
    {Sender : Type 0} → ApplicationId → ServiceState Sender → ServiceState Sender → Type 0
Keeps a s t =
    (current_id a t.clients ≡ current_id a s.clients)
    × (t.next_connection_id ≡ s.next_connection_id)

abbrev IsAbove : ConnectionId → Option ConnectionId → Type 0
IsAbove id none = Unit {0}
IsAbove id (some current) = id < current

-- `id` has been given out, and is not the current connection of `a`, nor will it be again.
abbrev IsSuperseded :
    {Sender : Type 0} → ApplicationId → ConnectionId → ServiceState Sender → Type 0
IsSuperseded a id s = (id < s.next_connection_id) × IsAbove id (current_id a s.clients)

module _ {Sender : Type 0} (try_send : Sender → SamToApplication → Option Sender) where
  on_heartbeat-Keeps :
      (s : ServiceState Sender) (b r a : ApplicationId) (h : HealthState) (mode : SystemMode)
      (now : Instant)
      → Keeps b s (on_heartbeat try_send s r a h mode now).0
  unfolding on_heartbeat
  on_heartbeat-Keeps s b r a h mode now = grind (arith, id-deliver_all try_send)

  on_mode_ready-Keeps :
      (s : ServiceState Sender) (b r a : ApplicationId) (i : TransitionId)
      → Keeps b s (on_mode_ready try_send s r a i).0
  unfolding on_mode_ready
  on_mode_ready-Keeps s b r a i = grind (arith, id-deliver_all try_send)

  on_mode_rejected-Keeps :
      (s : ServiceState Sender) (b r a : ApplicationId) (i : TransitionId) (reason : String)
      → Keeps b s (on_mode_rejected try_send s r a i reason).0
  unfolding on_mode_rejected
  on_mode_rejected-Keeps s b r a i reason = grind (arith, id-deliver_all try_send)

  on_mode_committed-Keeps :
      (s : ServiceState Sender) (b r a : ApplicationId) (i : TransitionId) (mode : SystemMode)
      (now : Instant)
      → Keeps b s (on_mode_committed try_send s r a i mode now).0
  unfolding on_mode_committed
  on_mode_committed-Keeps s b r a i mode now = grind (arith, id-deliver_all try_send)

  dispatch-Keeps :
      (s : ServiceState Sender) (b r : ApplicationId) (m : ApplicationToSam) (now : Instant)
      → Keeps b s (dispatch try_send s r m now).0
  unfolding dispatch
  dispatch-Keeps s b r (ApplicationToSam.register a version) now = (refl, refl)
  dispatch-Keeps s b r (ApplicationToSam.heartbeat a h mode) now =
      on_heartbeat-Keeps s b r a h mode now
  dispatch-Keeps s b r (ApplicationToSam.mode_ready a i) now = on_mode_ready-Keeps s b r a i
  dispatch-Keeps s b r (ApplicationToSam.mode_rejected a i reason) now =
      on_mode_rejected-Keeps s b r a i reason
  dispatch-Keeps s b r (ApplicationToSam.mode_committed a i mode) now =
      on_mode_committed-Keeps s b r a i mode now

  pub message-Keeps :
      (s : ServiceState Sender) (b a : ApplicationId) (id : ConnectionId) (m : ApplicationToSam)
      (now : Instant)
      → Keeps b s (handle_message try_send s a id m now).0
  message-Keeps s b a id m now =
      message_rule try_send (Keeps b s) s a id m now (refl, refl) (λ _. dispatch-Keeps s b a m now)

  step-next :
      (s : ServiceState Sender) (c : Call Sender)
      → s.next_connection_id + 1 < 2 ^ 64
      → (s.next_connection_id ≤ (step try_send s c).next_connection_id)
        × ((step try_send s c).next_connection_id ≤ s.next_connection_id + 1)
  unfolding step
  step-next s (registers a outbound now) h = ground arith
  step-next s (disconnects a id now) h = ground arith
  step-next s (messages a id m now) h = omega (arith, (message-Keeps s a a id m now).1)
  step-next s (requests target) h = ground arith
  step-next s (refreshes now) h = ground arith

  step-IsSuperseded :
      (s : ServiceState Sender) (a : ApplicationId) (id : ConnectionId) (c : Call Sender)
      → s.next_connection_id + 1 < 2 ^ 64
      → IsSuperseded a id s
      → IsSuperseded a id (step try_send s c)
  unfolding step
  step-IsSuperseded s a id (registers b outbound now) h v = grind (arith, get-insert, eq_iff b a)
  step-IsSuperseded s a id (disconnects b i now) h v =
      grind (arith, id-deliver_all try_send, get-remove a b s.clients, eq_iff b a)
  step-IsSuperseded s a id (messages b i m now) h v =
      let (e, n) = message-Keeps s a b i m now in (omega arith, rw e v.1)
  step-IsSuperseded s a id (requests target) h v = grind (arith, id-deliver_all try_send)
  step-IsSuperseded s a id (refreshes now) h v = grind (arith, id-deliver_all try_send)

  run-next :
      (s : ServiceState Sender) (cs : List (Call Sender))
      → s.next_connection_id + length cs < 2 ^ 64
      → (s.next_connection_id ≤ (run try_send s cs).next_connection_id)
        × ((run try_send s cs).next_connection_id ≤ s.next_connection_id + length cs)
  unfolding run
  run-next s [] h = omega arith
  run-next s (c ∷ cs) h =
      let n = step-next s c (omega arith) in
      let rest = run-next (step try_send s c) cs (omega arith) in (omega arith, omega arith)

  run-IsSuperseded :
      (s : ServiceState Sender) (a : ApplicationId) (id : ConnectionId) (cs : List (Call Sender))
      → s.next_connection_id + length cs < 2 ^ 64
      → IsSuperseded a id s
      → IsSuperseded a id (run try_send s cs)
  unfolding run
  run-IsSuperseded s a id [] h v = v
  run-IsSuperseded s a id (c ∷ cs) h v =
      let n = step-next s c (omega arith) in
      run-IsSuperseded (step try_send s c) a id cs (omega arith)
        (step-IsSuperseded s a id c (omega arith) v)

  -- An accepted registration gives out the next id and makes it current.
  register_accepted_cases :
      (s : ServiceState Sender) (a : ApplicationId) (outbound : Sender) (now : Instant)
      {id : ConnectionId}
      → (register try_send s a outbound now).1 ≡ ok id
      → (id ≡ s.next_connection_id)
        × (current_id a (register try_send s a outbound now).0.clients ≡ some id)
        × ((register try_send s a outbound now).0.next_connection_id
            ≡ wrapping_add s.next_connection_id 1)
  unfolding register
  register_accepted_cases s a outbound now h = grind (arith, get-insert, eq_iff a a)

  superseded_refused :
      (s : ServiceState Sender) (a : ApplicationId) (id : ConnectionId) (m : ApplicationToSam)
      (now : Instant)
      → IsSuperseded a id s
      → (handle_message try_send s a id m now ≡ (s, err (stale_connection a)))
        × (disconnect try_send s a id now ≡ (s, ok tt))
  unfolding handle_message disconnect verify_connection
  superseded_refused s a id m now v = ground arith

  -- Once an application has registered again, its older connection is refused for ever: after any
  -- further calls its messages are answered by `StaleConnection` and its disconnection is ignored,
  -- and neither changes the state. (The counter must not come round in between.)
  pub superseded_connection_is_dead :
      (s : ServiceState Sender) (a : ApplicationId) (old new : Sender) (cs ds : List (Call Sender))
      (m : ApplicationToSam) (now now' later : Instant) {id id' : ConnectionId}
      → s.next_connection_id + length cs + length ds + 2 < 2 ^ 64
      → (register try_send s a old now).1 ≡ ok id
      → (register try_send (run try_send (register try_send s a old now).0 cs) a new now').1
        ≡ ok id'
      → let s' = run try_send (register try_send s a old now).0 cs in
        let t = run try_send (register try_send s' a new now').0 ds in
        (handle_message try_send t a id m later ≡ (t, err (stale_connection a)))
        × (disconnect try_send t a id later ≡ (t, ok tt))
  superseded_connection_is_dead s a old new cs ds m now now' later {id} {id'} bound h h' =
      let (e, _, n) = register_accepted_cases s a old now h in
      let s₁ = (register try_send s a old now).0 in
      let n₁ : s₁.next_connection_id ≡ s.next_connection_id + 1 = n ∙ omega arith in
      let (lo, hi) = run-next s₁ cs (omega arith) in
      let s' = run try_send s₁ cs in
      let (e', k', n') = register_accepted_cases s' a new now' h' in
      let t = (register try_send s' a new now').0 in
      let n₂ : t.next_connection_id ≡ s'.next_connection_id + 1 = n' ∙ omega arith in
      superseded_refused _ a id m later (
        run-IsSuperseded t a id ds (omega arith)
          (omega arith, subst (IsAbove id) (sym k') (omega arith)))
