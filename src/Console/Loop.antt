-- ===== src/Console/Loop.antt =====
-- apps/sam/src/main.rs: the commands, the loop that reads them, and the branch of `main` that runs the
-- automatic demo instead. The lines of the standard input, the end of the server's task, and the calls
-- that other tasks make in between are a list of events.
use rust_state_machine_cowbo.Prelude.{
  String, Bool, true, false, List, [], ◌∷◌, ◌++◌, Option, none, some, Result, ok, err, map_err,
  ◌==◌, ◌||◌, if◌then◌else◌, trim, to_ascii_lowercase, string_eq, nat_eq,
}
use rust_state_machine_cowbo.Protocol.{startup, standby, working, SamToApplication}
use rust_state_machine_cowbo.Core.Registry.{Instant}
use rust_state_machine_cowbo.Service.State.{ServiceState}
use rust_state_machine_cowbo.Service.Methods.{request_mode}
use rust_state_machine_cowbo.Service.Calls.{Call, step}
use rust_state_machine_cowbo.Transport.Error.{ErrorKind}
use rust_state_machine_cowbo.Server.{ServerError}
use rust_state_machine_cowbo.AutoDemo.{AutoDemoError}
use rust_state_machine_cowbo.Console.Report.{print_status, print_applications, print_help}

-- Why `main` fails; `J` is the error of a task that was cancelled or has panicked.
pub data MainError (E J : Type 0) : Type 0 where
  options : (error : AutoDemoError) → MainError E J
  demo : (error : AutoDemoError) → MainError E J
  server : (error : ServerError E) → MainError E J
  join : (error : J) → MainError E J
  io : (kind : ErrorKind) → MainError E J

pub data ConsoleEvent (E J Sender : Type 0) : Type 0 where
  server_ended : (result : Result (Result (Unit {0}) (ServerError E)) J) → ConsoleEvent E J Sender
  next_line :
      (command : Result (Option String) ErrorKind) (now : Instant)
      (flushed : Result (Unit {0}) ErrorKind)
      → ConsoleEvent E J Sender
  meanwhile : (call : Call Sender) → ConsoleEvent E J Sender

-- `result??`
unfoldable pub joined :
    {E J : Type 0}
    → Result (Result (Unit {0}) (ServerError E)) J
    → Result (Unit {0}) (MainError E J)
joined (err e) = err (join e)
joined (ok (err e)) = err (server e)
joined (ok (ok _)) = ok tt

module _ {Sender : Type 0} (try_send : Sender → SamToApplication → Option Sender) where
  -- The state, what is printed, and whether the console goes on.
  unfoldable pub handle_command :
      ServiceState Sender → String → Instant → ServiceState Sender × List String × Bool
  handle_command s command now =
      let lower = to_ascii_lowercase command in
      if lower == "startup"
      then ((request_mode try_send s startup).0, [], true)
      else if lower == "standby"
      then ((request_mode try_send s standby).0, [], true)
      else if lower == "working"
      then ((request_mode try_send s working).0, [], true)
      else if lower == "status"
      then (s, print_status s, true)
      else if lower == "applications" || lower == "apps"
      then (s, print_applications s now, true)
      else if lower == "help"
      then (s, print_help, true)
      else if lower == "quit" || lower == "exit"
      then (s, [], false)
      else (s, [], true)

-- The state, what was printed, and how the loop has ended, if it has.
abbrev pub Progress : (Sender E J : Type 0) → Type 0
Progress Sender E J =
    (ServiceState Sender × List String) × Option (Result (Unit {0}) (MainError E J))

module _ {Sender E J : Type 0} (try_send : Sender → SamToApplication → Option Sender) where
  unfoldable pub console_step :
      ServiceState Sender → List String → ConsoleEvent E J Sender → Progress Sender E J
  console_step s out (server_ended result) = ((s, out), some (joined result))
  console_step s out (next_line (err e) now flushed) = ((s, out), some (err (io e)))
  console_step s out (next_line (ok none) now flushed) = ((s, out), some (ok tt))
  console_step s out (next_line (ok (some command)) now flushed) =
      let (s', lines, goes_on) = handle_command try_send s (trim command) now in
      if goes_on
      then (
        (s', out ++ lines ++ "sam> " ∷ []),
        elim flushed [ ok _ ↦ none | err e ↦ some (err (io e)) ],
      )
      else ((s', out ++ lines), some (ok tt))
  console_step s out (meanwhile call) = ((step try_send s call, out), none)

  unfoldable pub console_loop :
      ServiceState Sender → List String → List (ConsoleEvent E J Sender) → Progress Sender E J
  console_loop s out [] = ((s, out), none)
  console_loop s out (event ∷ events) =
      let done = console_step s out event in
      let rest = console_loop done.0.0 done.0.1 events in
      elim done.1 [ none ↦ rest | some result ↦ (done.0, some result) ]

-- The automatic branch of `main`: the server's task may end before the demo.
unfoldable pub main_auto_demo :
    {E J : Type 0}
    → Option (Result (Result (Unit {0}) (ServerError E)) J)
    → Result (Unit {0}) AutoDemoError
    → Result (Unit {0}) (MainError E J)
main_auto_demo (some ended) demo_result = joined ended
main_auto_demo none demo_result = map_err demo demo_result
