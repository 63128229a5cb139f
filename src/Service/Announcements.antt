-- ===== src/Service/Announcements.antt =====
-- The turning points of a transition reach every client.
use rust_state_machine_cowbo.Prelude.{
  [], String, true, Option, ok, ◌≡◌, ◌⊎◌, ◌||◌, refl, inl, inr, arith, ◌∙◌, ap, string_eq, nat_eq,
}
use text.Mathlib.TextEquality.{eq_iff}
use rust_state_machine_cowbo.HashMap.{HashMap, is_some}
use rust_state_machine_cowbo.HashMap
use rust_state_machine_cowbo.Protocol.{
  SystemMode, ApplicationId, ApplicationToSam, SamToApplication, TransitionId, commit_mode,
  abort_mode, state_broadcast,
}
use rust_state_machine_cowbo.HashSet.{HashSet}
use rust_state_machine_cowbo.HashSet
use rust_state_machine_cowbo.Core.Mode.Turning.{
  IsLast, IsNotLast, IsLast-cases, ready_last, ready_not_last, rejected_aborts, committed_last,
  committed_not_last,
}
use rust_state_machine_cowbo.Service.Health.{worst_effective, recalculate_health-eq-worst_effective}
use rust_state_machine_cowbo.Service.Snapshot.{applications}
use rust_state_machine_cowbo.Core.Mode.{
  stable, preparing, committing, ModeManager, ModeEvent, application_ready, application_rejected,
  application_committed,
}
use rust_state_machine_cowbo.Core.Registry.{Instant, get, set_mode}
use rust_state_machine_cowbo.Core.Registry.Laws.{set_mode-Updates}
use rust_state_machine_cowbo.Service.State.{
  ServiceState, ClientConnection, ConnectionId, verify_connection, deliver_all, broadcast,
}
use rust_state_machine_cowbo.Service.Messages.{
  handle_message, dispatch, on_mode_ready, on_mode_rejected, on_mode_committed, announce_commit,
  adopt_mode,
}
use rust_state_machine_cowbo.Service.Operations.{handle_message_cases}
use rust_state_machine_cowbo.Service.Delivery.{get-deliver_all}
use rust_state_machine_cowbo.Service.Broadcasts.{AllTold}
use rust_state_machine_cowbo.Service.Authority.{IsConsistent, registered_of_active}

module _ {Sender : Type 0} (try_send : Sender → SamToApplication → Option Sender) where
  handled :
      (s : ServiceState Sender) (a : ApplicationId) (id : ConnectionId) (m : ApplicationToSam)
      (now : Instant)
      → verify_connection s a id ≡ ok tt
      → handle_message try_send s a id m now ≡ dispatch try_send s a m now
  handled s a id m now active = elim (handle_message_cases try_send s a id m now) [
    | inl (stale, _) ↦ cc
    | inr (_, e) ↦ e
  ]

  told :
      (message : SamToApplication) (before after : HashMap ApplicationId (ClientConnection Sender))
      → after ≡ deliver_all try_send message before
      → AllTold try_send message before after
  told message before after e b = ap (HashMap.get b) e ∙ get-deliver_all try_send message b before

  ready_handled :
      (s : ServiceState Sender) (a : ApplicationId) (i : TransitionId) {m : ModeManager}
      {event : Option ModeEvent}
      → application_ready s.modes a i ≡ (m, ok event)
      → (on_mode_ready try_send s a a i).0 ≡ announce_commit try_send (record s { modes = m }) event
  unfolding on_mode_ready
  ready_handled s a i q = ground (arith, eq_iff a a, q)

  -- An application on its current connection approves a transition that waits for it. If nobody else is
  -- waited for, every client is sent `CommitMode` and the commit begins; if somebody else is, no client
  -- is sent anything and the others are still waited for.
  pub commit_announced :
      (s : ServiceState Sender) (a : ApplicationId) (id : ConnectionId) (i : TransitionId)
      (current target : SystemMode) (w r : HashSet ApplicationId) (now : Instant)
      → verify_connection s a id ≡ ok tt
      → s.modes.state ≡ preparing i current target w r
      → HashSet.contains a w ≡ true
      → let t = (handle_message try_send s a id (ApplicationToSam.mode_ready a i) now).0 in
        (IsLast a w
          × AllTold try_send (commit_mode i target) s.clients t.clients
          × (t.modes.state ≡ committing i current target (HashSet.insert a r) []))
        ⊎ (IsNotLast a w
            × (t.clients ≡ s.clients)
            × (t.modes.state
                ≡ preparing i current target (HashSet.remove a w) (HashSet.insert a r)))
  unfolding dispatch
  commit_announced s a id i current target w r now active h k =
      let e = handled s a id (ApplicationToSam.mode_ready a i) now active in
      elim (IsLast-cases a w) [
        | inl (empty, alone) ↦
            let q = ready_last s.modes a i current target w r h k empty in
            inl (
              rw (e, ready_handled s a i q)
                (alone, told (commit_mode i target) s.clients _ refl, refl))
        | inr (more, other) ↦
            let q = ready_not_last s.modes a i current target w r h k more in
            inr (rw (e, ready_handled s a i q) (other, refl, refl))
      ]

  rejected_handled :
      (s : ServiceState Sender) (a : ApplicationId) (i : TransitionId) (reason : String)
      {m : ModeManager} {event : ModeEvent}
      → application_rejected s.modes a i reason ≡ (m, ok event)
      → (on_mode_rejected try_send s a a i reason).0
        ≡ broadcast try_send (record s { modes = m }) (abort_mode i)
  unfolding on_mode_rejected
  rejected_handled s a i reason q = ground (arith, eq_iff a a, q)

  -- An application that was asked, whether or not it has approved, rejects on its current connection a
  -- transition that is being prepared: every client is sent `AbortMode`, the transition is over, and
  -- the mode is the old one.
  pub abort_announced :
      (s : ServiceState Sender) (a : ApplicationId) (id : ConnectionId) (i : TransitionId)
      (current target : SystemMode) (w r : HashSet ApplicationId) (reason : String) (now : Instant)
      → verify_connection s a id ≡ ok tt
      → s.modes.state ≡ preparing i current target w r
      → (HashSet.contains a w || HashSet.contains a r) ≡ true
      → let t =
          (handle_message try_send s a id (ApplicationToSam.mode_rejected a i reason) now).0 in
        AllTold try_send (abort_mode i) s.clients t.clients
        × (t.modes.state ≡ stable current)
        × (t.system ≡ s.system)
  unfolding dispatch
  abort_announced s a id i current target w r reason now active h k =
      let e = handled s a id (ApplicationToSam.mode_rejected a i reason) now active in
      let q = rejected_aborts s.modes a i current target w r reason h k in
      rw (e, rejected_handled s a i reason q) (told (abort_mode i) s.clients _ refl, refl, refl)

  -- The state in which the health is computed at the end of a transition.
  abbrev adopted : ServiceState Sender → ApplicationId → SystemMode → ServiceState Sender
  adopted s a target = record s {
    modes = record s.modes { state = stable target };
    applications = (set_mode s.applications a target).0;
    system = record { mode = target; health = s.system.health };
  }

  committed_handled :
      (s : ServiceState Sender) (a : ApplicationId) (i : TransitionId) (mode : SystemMode)
      (now : Instant) {m : ModeManager} {event : Option ModeEvent}
      → is_some (get s.applications a) ≡ true
      → application_committed s.modes a i mode ≡ (m, ok event)
      → (on_mode_committed try_send s a a i mode now).0
        ≡ adopt_mode try_send
            (record s { modes = m; applications = (set_mode s.applications a mode).0 })
            event
            now
  unfolding on_mode_committed
  committed_handled s a i mode now known q =
      ground (arith, eq_iff a a, q, known, set_mode-Updates mode s.applications a a)

  -- An application on its current connection confirms a commit that waits for it, in a consistent
  -- state. If nobody else is waited for, the target becomes the system's mode, the system's health is
  -- then the worst effective health of its applications at that time, and every client is sent both;
  -- if somebody else is, the mode and the health stay, no client is sent anything, and the others are
  -- still waited for.
  pub completion_announced :
      (s : ServiceState Sender) (a : ApplicationId) (id : ConnectionId) (i : TransitionId)
      (previous target : SystemMode) (w d : HashSet ApplicationId) (now : Instant)
      → IsConsistent s
      → verify_connection s a id ≡ ok tt
      → s.modes.state ≡ committing i previous target w d
      → HashSet.contains a w ≡ true
      → let t =
          (handle_message try_send s a id (ApplicationToSam.mode_committed a i target) now).0 in
        (IsLast a w
          × (t.system.mode ≡ target)
          × (t.modes.state ≡ stable target)
          × (t.system.health ≡ worst_effective (applications t now))
          × AllTold try_send (state_broadcast target t.system.health) s.clients t.clients)
        ⊎ (IsNotLast a w
            × (t.system ≡ s.system)
            × (t.clients ≡ s.clients)
            × (t.modes.state
                ≡ committing i previous target (HashSet.remove a w) (HashSet.insert a d)))
  unfolding dispatch applications
  completion_announced s a id i previous target w d now v active h k =
      let e = handled s a id (ApplicationToSam.mode_committed a i target) now active in
      let known = registered_of_active s a id v.present active in
      elim (IsLast-cases a w) [
        | inl (empty, alone) ↦
            let q = committed_last s.modes a i previous target w d h k empty in
            inl (
              rw (e, committed_handled s a i target now known q)
                (
                  alone,
                  refl,
                  refl,
                  recalculate_health-eq-worst_effective (adopted s a target) now,
                  told _ s.clients _ refl,
                ))
        | inr (more, other) ↦
            let q = committed_not_last s.modes a i previous target w d h k more in
            inr (rw (e, committed_handled s a i target now known q) (other, refl, refl, refl))
      ]
