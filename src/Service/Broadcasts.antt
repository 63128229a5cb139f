-- ===== src/Service/Broadcasts.antt =====
-- Who is told of what: the messages that the calls queue for the clients.
use rust_state_machine_cowbo.Prelude.{
  true, List, [], ◌∷◌, Option, ok, ◌≡◌, refl, sym, ◌≢◌, ◌⊎◌, inl, inr, arith, ◌∙◌, ap, string_eq,
  ◌==◌, Option-cases, nat_eq,
}
use mathlib.Core.Option
use text.Mathlib.TextEquality.{eq_iff}
use rust_state_machine_cowbo.HashSet.{contains-collect}
use rust_state_machine_cowbo.HashSet
use rust_state_machine_cowbo.HashMap.{HashMap, is_some, get-insert, get-remove}
use rust_state_machine_cowbo.HashMap
use rust_state_machine_cowbo.Protocol.{
  SystemMode, ApplicationId, SamToApplication, TransitionId, prepare_mode, register_accepted,
  protocol_version, health_beq_iff, health_eq,
}
use rust_state_machine_cowbo.Core.Mode.{preparing, request_transition, current_mode}
use rust_state_machine_cowbo.Core.Mode.Consent.{request_accepted}
use rust_state_machine_cowbo.Core.Registry.{Instant}
use rust_state_machine_cowbo.Service.State.{
  ServiceState, ClientConnection, deliver, deliver_all, recalculate_health,
}
use rust_state_machine_cowbo.Service.Methods.{request_mode, register, refresh_health, enter}
use rust_state_machine_cowbo.Service.Delivery.{get-deliver_all}

contains-keys :
    {V : Type 0} (k : ApplicationId) (m : HashMap ApplicationId V)
    → HashSet.contains k (HashMap.keys m) ≡ HashMap.contains_key k m
unfolding HashSet.contains HashMap.keys HashMap.get
contains-keys k [] = refl
contains-keys k ((j, v) ∷ m) = ground (arith, contains-keys k m)

module _ {Sender : Type 0} (try_send : Sender → SamToApplication → Option Sender) where
  -- In the table of clients everybody is sent the message, and nothing else changes.
  abbrev pub AllTold :
      SamToApplication
      → HashMap ApplicationId (ClientConnection Sender)
      → HashMap ApplicationId (ClientConnection Sender)
      → Type 0
  AllTold message before after =
      (b : ApplicationId)
      → HashMap.get b after ≡ Option.map (deliver try_send message) (HashMap.get b before)

  request_mode_accepted :
      (s : ServiceState Sender) (target : SystemMode) {id : TransitionId}
      → (request_mode try_send s target).1 ≡ ok id
      → ((request_transition s.modes target (HashMap.keys s.clients)).1 ≡ ok id)
        × ((request_mode try_send s target).0.modes
            ≡ (request_transition s.modes target (HashMap.keys s.clients)).0)
        × ((request_mode try_send s target).0.clients
            ≡ deliver_all try_send (prepare_mode id target) s.clients)
  unfolding request_mode
  request_mode_accepted s target h = ground arith

  -- An accepted request sends `PrepareMode` to every client, and the transition waits for exactly
  -- the clients.
  pub request_mode_asks_clients :
      (s : ServiceState Sender) (target : SystemMode) {id : TransitionId}
      → (request_mode try_send s target).1 ≡ ok id
      → let t = (request_mode try_send s target).0 in
        AllTold (prepare_mode id target) s.clients t.clients
        × ((waiting : List ApplicationId) × (t.modes.state
              ≡ preparing id (current_mode s.modes) target waiting [])
            × ((b : ApplicationId) → HashSet.contains b waiting ≡ HashMap.contains_key b s.clients))
  request_mode_asks_clients s target {id} h =
      let (r, m, c) = request_mode_accepted s target h in
      let (_, _, _, _, e) = request_accepted s.modes target (HashMap.keys s.clients) r in
      (
        λ b. ap (HashMap.get b) c ∙ get-deliver_all try_send (prepare_mode id target) b s.clients,
        (
          HashSet.collect (HashMap.keys s.clients),
          ap (λ x. x.state) (m ∙ e),
          λ b. contains-collect b (HashMap.keys s.clients) ∙ contains-keys b s.clients,
        ),
      )

  -- A health check that computes the same state tells nobody.
  refresh_health_settled :
      (t : ServiceState Sender) (now : Instant)
      → recalculate_health t now ≡ t
      → refresh_health try_send t now ≡ t
  unfolding refresh_health
  refresh_health_settled t now e =
      let same : (t.system.health == (recalculate_health t now).system.health) ≡ true =
        (health_beq_iff _ _).1 (sym (ap (λ x. x.system.health) e)) in
      rw same e

  register_outcome :
      (s : ServiceState Sender) (a : ApplicationId) (outbound : Sender) (now : Instant)
      → ((register try_send s a outbound now).0 ≡ enter s a now)
        ⊎ ((c : ClientConnection Sender) × ((register try_send s a outbound now).0
              ≡ record (enter s a now) { clients = HashMap.insert a c s.clients }))
  unfolding register
  register_outcome s a outbound now =
      elim (Option-cases (
        try_send outbound
          (register_accepted protocol_version s.system.mode (enter s a now).system.health))) [
            | inl e ↦ inl (rw (e, register))
            | inr (sender, e) ↦
                inr (record { id = s.next_connection_id; outbound = sender }, rw (e, register))
          ]

  -- Registering a client may change the health of the system, but no other client is told: neither
  -- by the registration nor by a health check at that moment, which finds nothing changed.
  pub registration_not_announced :
      (s : ServiceState Sender) (a b : ApplicationId) (outbound : Sender) (now : Instant)
      → a ≢ b
      → let t = (register try_send s a outbound now).0 in
        (HashMap.get b t.clients ≡ HashMap.get b s.clients) × (refresh_health try_send t now ≡ t)
  registration_not_announced s a b outbound now n = elim (register_outcome s a outbound now) [
    | inl e ↦ (ap (λ t. HashMap.get b t.clients) e, refresh_health_settled _ now (rw e))
    | inr (c, e) ↦ (
      ap (λ t. HashMap.get b t.clients) e ∙ ground (arith, get-insert b a c s.clients, eq_iff a b),
      refresh_health_settled _ now (rw e),
    )
  ]
