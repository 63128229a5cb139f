-- ===== src/Console/Commands.antt =====
-- What the console may do to the service, and that it reads a command in any case.
use rust_state_machine_cowbo.Prelude.{
  String, Bool, List, [], ◌∷◌, Option, none, some, ok, err, All, subst, ◌==◌, string_eq, nat_eq,
  ◌≡◌, refl, ◌⊎◌, inl, inr, Option-cases, arith, ◌||◌, to_ascii_lowercase, trim, if_rule,
}
use rust_state_machine_cowbo.Protocol.{SystemMode, startup, standby, working, SamToApplication}
use rust_state_machine_cowbo.Core.Registry.{Instant}
use rust_state_machine_cowbo.Service.State.{ServiceState}
use rust_state_machine_cowbo.Service.Methods.{request_mode}
use rust_state_machine_cowbo.Service.Calls.{Call, requests, step, run}
use rust_state_machine_cowbo.Service.Reach.{Reached, Reached-refl, Reached-step}
use rust_state_machine_cowbo.Console.Loop.{
  ConsoleEvent, server_ended, next_line, meanwhile, handle_command, console_step, console_loop,
}

module _ {Sender : Type 0} (try_send : Sender → SamToApplication → Option Sender) where
  handle_command_state :
      (s : ServiceState Sender) (command : String) (now : Instant)
      → (let after = (handle_command try_send s command now).0 in
          (after ≡ s) ⊎ ((target : SystemMode) × (after ≡ (request_mode try_send s target).0)))
  unfolding handle_command
  handle_command_state s command now =
      let lower = to_ascii_lowercase command in
      if_rule Asked (lower == "startup") (inr (startup, refl)) (
        if_rule Asked (lower == "standby") (inr (standby, refl)) (
          if_rule Asked (lower == "working") (inr (working, refl)) (
            if_rule Asked (lower == "status") (inl refl) (
              if_rule Asked (lower == "applications" || lower == "apps") (inl refl) (
                if_rule Asked (lower == "help") (inl refl)
                  (if_rule Asked (lower == "quit" || lower == "exit") (inl refl) (inl refl)))))))
    where
      Asked : ServiceState Sender × List String × Bool → Type 0
      Asked x = (x.0 ≡ s) ⊎ ((target : SystemMode) × (x.0 ≡ (request_mode try_send s target).0))

-- The other tasks make only calls of the kind `P`.
abbrev pub Between :
    {E J Sender : Type 0} → (Call Sender → Type 0) → List (ConsoleEvent E J Sender) → Type 0
Between P [] = Unit
Between P (meanwhile call ∷ events) = P call × Between P events
Between P (_ ∷ events) = Between P events

-- A request for a mode, or a call of the kind `P`.
abbrev pub IsRequest : {Sender : Type 0} → Call Sender → Type 0
IsRequest (requests target) = Unit
IsRequest _ = ⊥

module _ {Sender E J : Type 0} (try_send : Sender → SamToApplication → Option Sender)
    (P : Call Sender → Type 0) where
  console_step-Reached :
      (s t : ServiceState Sender) (out : List String) (event : ConsoleEvent E J Sender)
      → Between P (event ∷ [])
      → Reached try_send (λ c. IsRequest c ⊎ P c) (console_step try_send s out event).0.0 t
      → Reached try_send (λ c. IsRequest c ⊎ P c) s t
  unfolding console_step step
  console_step-Reached s t out (server_ended result) h r = r
  console_step-Reached s t out (next_line (err e) now flushed) h r = r
  console_step-Reached s t out (next_line (ok none) now flushed) h r = r
  console_step-Reached s t out (next_line (ok (some command)) now flushed) h r =
      let x = handle_command try_send s (trim command) now in
      let Q : Call Sender → Type 0 = λ c. IsRequest c ⊎ P c in
      let same : (console_step {E = E} {J = J} try_send s out
            (next_line (ok (some command)) now flushed)).0.0
          ≡ x.0 =
        ground arith in
      let after = subst (λ s'. Reached try_send Q s' t) same r in
      elim (handle_command_state try_send s (trim command) now) [
        | inl e ↦ subst (λ s'. Reached try_send Q s' t) e after
        | inr (target, e) ↦
            Reached-step try_send Q s t (requests target) (inl tt)
              (subst (λ s'. Reached try_send Q s' t) e after)
      ]
  console_step-Reached s t out (meanwhile call) (p, _) r =
      Reached-step try_send (λ c. IsRequest c ⊎ P c) s t call (inr p) r

  Between-split :
      (event : ConsoleEvent E J Sender) (events : List (ConsoleEvent E J Sender))
      → Between P (event ∷ events)
      → Between P (event ∷ []) × Between P events
  Between-split (server_ended result) events h = (tt, h)
  Between-split (next_line command now flushed) events h = (tt, h)
  Between-split (meanwhile call) events h = ((h.0, tt), h.1)

  console_loop-Reached :
      (s : ServiceState Sender) (out : List String) (events : List (ConsoleEvent E J Sender))
      → Between P events
      → Reached try_send (λ c. IsRequest c ⊎ P c) s (console_loop try_send s out events).0.0
  unfolding console_loop
  console_loop-Reached s out [] h = Reached-refl try_send _ s
  console_loop-Reached s out (event ∷ events) h =
      let (one, others) = Between-split event events h in
      let done = console_step try_send s out event in
      elim (Option-cases done.1) [
        | inl q ↦
            console_step-Reached s _ out event one
              (rw (console_loop, q) (console_loop-Reached done.0.0 done.0.1 events others))
        | inr (x, q) ↦
            console_step-Reached s _ out event one
              (rw (console_loop, q) (Reached-refl try_send _ done.0.0))
      ]

  -- Whatever an operator types, the console changes the service by requests for a mode alone, next to
  -- the calls of the kind `P` that other tasks make.
  pub console_loop-run :
      (s : ServiceState Sender) (out : List String) (events : List (ConsoleEvent E J Sender))
      → Between P events
      → (cs : List (Call Sender)) × ((console_loop try_send s out events).0.0 ≡ run try_send s cs)
        × All (λ c. IsRequest c ⊎ P c) cs
  unfolding Reached
  console_loop-run s out events h = console_loop-Reached s out events h
