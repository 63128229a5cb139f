-- ===== src/Service/AgreementTests.antt =====
-- Two applications register with a new service, are asked for Working, and agree.
use rust_state_machine_cowbo.Prelude.{
  List, [], ◌∷◌, ◌++◌, Option, some, ok, ◌≡◌, refl, arith, string_eq,
}
use rust_state_machine_cowbo.HashMap
use rust_state_machine_cowbo.HashSet
use rust_state_machine_cowbo.Protocol.{working, SamToApplication}
use rust_state_machine_cowbo.Core.Mode.{stable, request_transition}
use rust_state_machine_cowbo.Core.Mode.Completion.{IsCovered}
use rust_state_machine_cowbo.Service.State.{ServiceState, new}
use rust_state_machine_cowbo.Service.Methods.{request_mode}
use rust_state_machine_cowbo.Service.Calls.{Call, registers, step, run}
use rust_state_machine_cowbo.Service.Agreement.{
  Answer, answering, AreCurrent, agreed_calls, agreement_changes_mode,
}

abbrev Queued : Type 0
Queued = List SamToApplication

abbrev send : Queued → SamToApplication → Option Queued
send queued message = some (queued ++ message ∷ [])

abbrev registrations : List (Call Queued)
registrations = registers "navigation" [] 1 ∷ registers "guidance" [] 2 ∷ []

abbrev two_clients : ServiceState Queued
two_clients = run send (new 9) registrations

abbrev readiness : List Answer
readiness = ("guidance", 2, 3) ∷ ("navigation", 1, 4) ∷ []

abbrev confirmations : List Answer
confirmations = ("navigation", 1, 5) ∷ ("guidance", 2, 6) ∷ ("navigation", 1, 7) ∷ []

keys_two_clients : HashMap.keys two_clients.clients ≡ "navigation" ∷ "guidance" ∷ []
unfolding HashMap.keys HashMap.insert run step new
keys_two_clients = refl

asked : (request_mode send two_clients working).1 ≡ ok 1
unfolding request_mode request_transition HashMap.keys HashMap.insert HashSet.collect run step new
asked = refl

readiness-AreCurrent : AreCurrent two_clients readiness
unfolding HashMap.get HashMap.insert run step new
readiness-AreCurrent = (refl, (refl, tt))

confirmations-AreCurrent : AreCurrent two_clients confirmations
unfolding HashMap.get HashMap.insert run step new
confirmations-AreCurrent = (refl, (refl, (refl, tt)))

readiness-IsCovered : IsCovered (HashMap.keys two_clients.clients) (answering readiness)
unfolding HashSet.contains
readiness-IsCovered = rw keys_two_clients λ a h. ground arith

confirmations-IsCovered : IsCovered (HashMap.keys two_clients.clients) (answering confirmations)
unfolding HashSet.contains
confirmations-IsCovered = rw keys_two_clients λ a h. ground arith

agreement_changes_mode_example :
    (let t = run send two_clients (agreed_calls send 1 working readiness confirmations) in
      (t.system.mode ≡ working) × (t.modes.state ≡ stable working))
agreement_changes_mode_example =
    agreement_changes_mode send 9 registrations working readiness confirmations asked
      readiness-AreCurrent confirmations-AreCurrent readiness-IsCovered confirmations-IsCovered
