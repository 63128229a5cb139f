-- ===== src/Lib.antt =====
-- Verification of SAM, the system application manager: a service that keeps the mode and the health
-- of a system of applications, and changes the mode by a two-phase protocol.
--
-- The parts. Applications connect to SAM over a local socket (crates/sam-transport), register, send
-- heartbeats, and answer requests for a new mode (messages: crates/sam-protocol). The service
-- (crates/sam-service) keeps, behind one mutex, the registry of applications, the health manager and
-- the mode manager (crates/sam-core) and the queue of each client. A method of the service changes
-- this state and queues messages to the clients.
--
-- On the other side of the socket the runtime (crates/sam-client) drives a handler, of which the
-- demo (crates/sam-demo-app) has one.
--
-- The files.
--   Prelude           Boolean tests, equality as a class, `Result` and its `?`, lists, numbers as text.
--   HashSet, HashMap  The standard collections that the source uses, as lists that are read through
--                     membership and lookup; iteration is in the order of the list.
--   Protocol          crates/sam-protocol/src: `SystemMode`, `HealthState`, `ApplicationToSam`,
--                     `SamToApplication`.
--   Core.Mode         crates/sam-core/src/mode.rs: `ModeManager` and its methods; a method that
--                     takes `&mut self` returns the new manager with its result. `run` applies a
--                     list of operations. Its children hold the theorems.
--   Core.Registry     crates/sam-core/src/registry.rs, `ApplicationRegistry`.
--   Core.Health       crates/sam-core/src/health.rs and state.rs, `HealthManager`, `SystemState`.
--   Service.State     crates/sam-service/src/service.rs: `ServiceState` and the private helpers.
--   Service.Methods   `register`, `disconnect`, `request_mode`, `refresh_health`.
--   Service.Messages  `handle_message`, one definition for each arm of its `match`.
--   Service.Snapshot  `applications`.
--   Service.Shared    `SamService`, whose mutex may be poisoned.
--   Service.Calls     The calls that the tasks of the program make, one after the other.
--   Server            crates/sam-service/src/server.rs: `serve_connection` and the session behind it.
--   Server.Program    `SamServer::run`: the tasks that it spawns, and how they take turns.
--   Transport         crates/sam-transport/src/frame.rs and error.rs; Transport.Streams holds what is
--                     used of the streams and of postcard.
--   Transport.Polling The future of `receive_frame` between two polls, and what `select!` does to it.
--   Transport.Endpoint, Transport.Unix, Transport.Windows
--                     endpoint.rs, unix.rs and windows.rs in the same directory.
--   Client            crates/sam-client/src: lib.rs in Handle, Messages and Methods, runtime.rs in
--                     Handler, Runtime and Config. Agreement joins sessions with the mode manager.
--   DemoApp           crates/sam-demo-app/src/lib.rs, and the executables apps/telemetry, navigation
--                     and guidance.
--   AutoDemo          apps/sam/src/auto_demo.rs: the options, the loops that wait for the service, and
--                     in Stages the course of the demo.
--   Console           apps/sam/src/main.rs: the operator's commands and the loop that reads them.
--   Conformance       The unit tests in these files, run on the model. A test that spawns a server is run
--                     in the order in which its two sides wait for each other.
--
-- Numbers. `u64` counters are natural numbers with the wrap-around written out. An `Instant` and a
-- `Duration` are natural numbers, of which `saturating_duration_since` subtracts.
--
-- Events. An asynchronous loop takes a list of events, those that `select!` picks; in a session of
-- the server, calls of other tasks stand between them. A loop whose list is used up goes on. Two
-- loops need fuel: the `Display` of a number, which has the 20 digits of a `u64`, and the `connect` of a
-- named pipe, with a round for each delay of 25 milliseconds in the limit of 5 seconds, and one more.
--
-- What is a parameter. The sender of a tokio channel is a type `Sender` with a `try_send`, which
-- returns the sender after the message is queued, or nothing if the queue is full or closed. The
-- byte streams and postcard are records of the operations that are used (Transport.Streams), with
-- hypotheses that bytes keep their order, that the end of a stream is `UnexpectedEof`, and that what
-- is encoded is decoded again. A poll of tokio's `read_exact` is a function, which fills its buffer in
-- order and takes no more than is missing (Transport.Polling). An `io::Error` is its kind; on Windows
-- it may have a code as well.
-- The calls of the operating system that sockets and pipes need are records (Transport.Unix,
-- Transport.Windows), and of the clock it is assumed that it does not go back and that a sleep takes
-- its time. The client's and the server's loops take any way to send a message.
--
-- What is not modelled. The mutex makes each method of the service one step, so that interleavings of
-- tasks are lists of calls. In Server, Console and AutoDemo it is not poisoned; Service.Shared has what the
-- methods do if it is. Log lines and the loggers are left out; that a timer has fired or a timeout has
-- passed is an event. In Server, a message of a session comes as a whole; that the bytes of a message
-- may be lost before, when `select!` drops the future that reads them, is in Transport.Polling. The
-- scripts that start the processes are not modelled. Of the unit tests, those of the JSON forms of the
-- messages are left out, and the two that echo a text through a socket of the operating system.
pub mod Prelude
pub mod HashSet
pub mod HashMap
pub mod Protocol
pub mod Core
pub mod Service
pub mod Transport
pub mod Client
pub mod DemoApp
pub mod Server
pub mod AutoDemo
pub mod Console
pub mod Conformance
