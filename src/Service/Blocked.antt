-- ===== src/Service/Blocked.antt =====
-- A participant that is lost between `CommitMode` and its confirmation holds up every transition.
use rust_state_machine_cowbo.Prelude.{
  List, [], ◌∷◌, Option, none, some, err, ◌≡◌, inl, inr, arith, ◌∙◌, All,
}
use rust_state_machine_cowbo.HashMap
use rust_state_machine_cowbo.Protocol.{SystemMode, ApplicationId, SamToApplication}
use rust_state_machine_cowbo.Core.Mode.{
  ModeManager, Operation, transition_in_progress, mode_error_text, request_transition,
}
use rust_state_machine_cowbo.Core.Mode.Stuck.{
  NotCommittedBy, AwaitsCommit, step-AwaitsCommit, AwaitsCommit-refuses,
}
use rust_state_machine_cowbo.Service.State.{ServiceState, mode}
use rust_state_machine_cowbo.Service.Methods.{request_mode}
use rust_state_machine_cowbo.Service.Operations.{
  message_operation, call_operation, Performs, modes-step,
}
use rust_state_machine_cowbo.Service.Authority.{IsConsistent, step-IsConsistent}
use rust_state_machine_cowbo.Service.Calls.{
  Call, registers, disconnects, messages, requests, refreshes, step, run,
}

abbrev Avoids : ApplicationId → Option Operation → Type 0
Avoids x none = Unit {0}
Avoids x (some o) = NotCommittedBy x o

-- The call brings no confirmation in the name of `x`.
abbrev pub BringsNoCommitOf : {Sender : Type 0} → ApplicationId → Call Sender → Type 0
BringsNoCommitOf x (messages _ _ m _) = Avoids x (message_operation m)
BringsNoCommitOf x (registers _ _ _) = Unit {0}
BringsNoCommitOf x (disconnects _ _ _) = Unit {0}
BringsNoCommitOf x (requests _) = Unit {0}
BringsNoCommitOf x (refreshes _) = Unit {0}

Performs-AwaitsCommit :
    (x : ApplicationId) (p : SystemMode) (m m' : ModeManager) (o : Option Operation)
    → Performs m o m'
    → Avoids x o
    → AwaitsCommit x p m.state
    → AwaitsCommit x p m'.state
Performs-AwaitsCommit x p m m' none e k h = rw e h
Performs-AwaitsCommit x p m m' (some o) (inl e) k h = rw e h
Performs-AwaitsCommit x p m m' (some o) (inr e) k h =
    rw e (step-AwaitsCommit x p m.state m.next_transition_id o h k)

module _ {Sender : Type 0} (try_send : Sender → SamToApplication → Option Sender) where
  avoids :
      (x : ApplicationId) (s : ServiceState Sender) (c : Call Sender)
      → BringsNoCommitOf x c
      → Avoids x (call_operation s c)
  avoids x s (messages _ _ m _) k = k
  avoids x s (registers _ _ _) k = tt
  avoids x s (disconnects _ _ _) k = tt
  avoids x s (requests _) k = tt
  avoids x s (refreshes _) k = tt

  record IsBlocked (x : ApplicationId) (p : SystemMode) (s : ServiceState Sender) : Type 0 where
    consistent : IsConsistent s
    awaits : AwaitsCommit x p s.modes.state

  run-IsBlocked :
      (x : ApplicationId) (p : SystemMode) (s : ServiceState Sender) (cs : List (Call Sender))
      → All (BringsNoCommitOf x) cs
      → IsBlocked x p s
      → IsBlocked x p (run try_send s cs)
  unfolding run
  run-IsBlocked x p s [] k b = b
  run-IsBlocked x p s (c ∷ cs) k b = run-IsBlocked x p (step try_send s c) cs k.1 (record {
    consistent = step-IsConsistent try_send s c b.consistent;
    awaits =
        Performs-AwaitsCommit x p s.modes _ (call_operation s c) (modes-step try_send s c)
          (avoids x s c k.0) b.awaits;
  })

  request_mode_refused :
      (s : ServiceState Sender) (target : SystemMode)
      → (request_transition s.modes target (HashMap.keys s.clients)).1 ≡ err transition_in_progress
      → (request_mode try_send s target).1 ≡ err (mode (mode_error_text transition_in_progress))
  unfolding request_mode
  request_mode_refused s target h = ground arith

  -- While the service waits for `x` to confirm a commit, no calls help that bring no confirmation
  -- by `x`, be it a disconnection or a new registration of `x`: SAM keeps the old mode, and
  -- refuses every request for a mode because a transition is in progress.
  pub lost_participant_blocks :
      (x : ApplicationId) (p : SystemMode) (s : ServiceState Sender) (cs : List (Call Sender))
      (target : SystemMode)
      → IsConsistent s
      → AwaitsCommit x p s.modes.state
      → All (BringsNoCommitOf x) cs
      → let t = run try_send s cs in
        (t.system.mode ≡ p)
        × ((request_mode try_send t target).1 ≡ err (mode (mode_error_text transition_in_progress)))
  lost_participant_blocks x p s cs target v h k =
      let b = run-IsBlocked x p s cs k (record { consistent = v; awaits = h }) in
      let t = run try_send s cs in
      let (same, refused) =
        AwaitsCommit-refuses x p t.modes target (HashMap.keys t.clients) b.awaits in
      (b.consistent.agrees ∙ same, request_mode_refused t target refused)
