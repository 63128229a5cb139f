-- ===== src/Service/Reach.antt =====
-- The states that calls of a kind lead to.
use rust_state_machine_cowbo.Prelude.{List, [], ◌∷◌, Option, All, ◌≡◌, refl, subst}
use rust_state_machine_cowbo.Protocol.{SamToApplication}
use rust_state_machine_cowbo.Service.State.{ServiceState}
use rust_state_machine_cowbo.Service.Calls.{Call, step, run}

module _ {Sender : Type 0} (try_send : Sender → SamToApplication → Option Sender)
    (Q : Call Sender → Type 0) where
  unfoldable pub Reached : ServiceState Sender → ServiceState Sender → Type 0
  Reached s t = (cs : List (Call Sender)) × (t ≡ run try_send s cs) × All Q cs

  pub Reached-refl : (s : ServiceState Sender) → Reached s s
  unfolding Reached run
  Reached-refl s = ([], refl, tt)

  pub Reached-step :
      (s t : ServiceState Sender) (c : Call Sender)
      → Q c
      → Reached (step try_send s c) t
      → Reached s t
  unfolding Reached run
  Reached-step s t c made (cs, e, all) = (c ∷ cs, e, (made, all))

  pub Reached-run :
      (s t : ServiceState Sender) (cs : List (Call Sender))
      → All Q cs
      → Reached (run try_send s cs) t
      → Reached s t
  unfolding run
  Reached-run s t [] all r = r
  Reached-run s t (c ∷ cs) (p, all) r =
      Reached-step s t c p (Reached-run (step try_send s c) t cs all r)

  pub Reached-trans : (s t u : ServiceState Sender) → Reached s t → Reached t u → Reached s u
  unfolding Reached
  Reached-trans s t u (cs, e, all) r = Reached-run s u cs all (subst (λ s'. Reached s' u) e r)
