-- ===== src/Transport/Polling.antt =====
-- crates/sam-transport/src/frame.rs: the future of `receive_frame`, which is polled until it is ready,
-- and what becomes of it in the `select!` of crates/sam-service/src/server.rs. It keeps what it has
-- read of the length or of the payload; tokio's `read_exact` is a parameter.
use rust_state_machine_cowbo.Prelude.{
  ℕ, zero, suc, ◌+◌, ◌<◌, length, ◌≡◌, Bool, true, false, List, [], ◌∷◌, ◌++◌, Result, ok, err,
  map_err, if◌then◌else◌,
}
use rust_state_machine_cowbo.Transport.Error.{TransportError, io, unexpected_eof, serialization}
use rust_state_machine_cowbo.Transport.Streams.{Postcard}
use rust_state_machine_cowbo.Transport.Frame.{from_be_bytes, validate_size}

-- Which `read_exact` is awaited, how many bytes are missing, and those that it has.
pub data Reading : Type 0 where
  reading_length : (missing : ℕ) (got : List ℕ) → Reading
  reading_payload : (missing : ℕ) (got : List ℕ) → Reading

-- The future when it has not been polled yet.
abbrev pub not_started : Reading
not_started = reading_length 4 []

pub data Polled (E T : Type 0) : Type 0 where
  pending : (reading : Reading) → Polled E T
  finished : (result : Result T (TransportError E)) → Polled E T

-- A poll of tokio's `read_exact`: from how many bytes are missing, the buffer, and the stream, what is
-- missing then, the buffer, and the rest of the stream.
abbrev pub ReadExact : Type 0
ReadExact = ℕ → List ℕ → List ℕ → ℕ × List ℕ × List ℕ

-- It fills the buffer from the stream in order and takes no more than is missing; with fewer bytes on the
-- stream it takes them all.
pub record FillsInOrder (fill : ReadExact) : Type 0 where
  pub enough :
      (n : ℕ) (got front back : List ℕ)
      → length front ≡ n
      → fill n got (front ++ back) ≡ (zero, got ++ front, back)
  pub few :
      (n : ℕ) (got xs : List ℕ)
      → length xs < n
      → (m : ℕ) × (m + length xs ≡ n) × (fill n got xs ≡ (m, got ++ xs, []))

module _ {E T : Type 0} (postcard : Postcard E T) (fill : ReadExact) where
  -- At the end of the stream `read_exact` fails, and otherwise it waits.
  unfoldable pub starved : Bool → Reading → Polled E T
  starved closed reading = if closed then finished (err (io unexpected_eof)) else pending reading

  -- The rest of a poll of each `read_exact`, from what `fill` returns.
  unfoldable pub on_payload : Bool → ℕ × List ℕ × List ℕ → List ℕ × Polled E T
  on_payload closed (zero, got, stream) =
      (stream, finished (map_err serialization (postcard.from_bytes got)))
  on_payload closed (suc missing, got, stream) =
      (stream, starved closed (reading_payload (suc missing) got))

  unfoldable pub on_length : ℕ → Bool → ℕ × List ℕ × List ℕ → List ℕ × Polled E T
  on_length maximum closed (suc missing, got, stream) =
      (stream, starved closed (reading_length (suc missing) got))
  on_length maximum closed (zero, got, stream) = elim (validate_size (from_be_bytes got) maximum) [
    | err e ↦ (stream, finished (err e))
    | ok _ ↦ on_payload closed (fill (from_be_bytes got) [] stream)
  ]

  -- The stream after a poll, and its result.
  unfoldable pub poll : ℕ → Bool → Reading → List ℕ → List ℕ × Polled E T
  poll maximum closed (reading_length missing got) stream =
      on_length maximum closed (fill missing got stream)
  poll maximum closed (reading_payload missing got) stream =
      on_payload closed (fill missing got stream)

-- What a session of the server meets while it awaits a message: bytes arrive, the branch of the socket
-- is polled, or the branch of the queue is ready first, and `select!` drops the future of the other.
pub data WireEvent : Type 0 where
  arrives : (bytes : List ℕ) → WireEvent
  polls : WireEvent
  queue_ready : WireEvent

-- The future, the bytes on the stream, the results so far, and whether an error has ended the session.
pub record Wire (E T : Type 0) : Type 0 where
  pub reading : Reading
  pub stream : List ℕ
  pub received : List (Result T (TransportError E))
  pub over : Bool

module _ {E T : Type 0} (postcard : Postcard E T) (fill : ReadExact) where
  -- A message is handed on, and the next turn of the loop starts a new future; an error ends the loop.
  unfoldable pub settle : List (Result T (TransportError E)) → List ℕ × Polled E T → Wire E T
  settle received (stream, pending reading) = record {
    reading = reading;
    stream = stream;
    received = received;
    over = false;
  }
  settle received (stream, finished (ok message)) = record {
    reading = not_started;
    stream = stream;
    received = received ++ ok message ∷ [];
    over = false;
  }
  settle received (stream, finished (err e)) = record {
    reading = not_started;
    stream = stream;
    received = received ++ err e ∷ [];
    over = true;
  }

  unfoldable pub wire_step : ℕ → Wire E T → WireEvent → Wire E T
  wire_step maximum w (arrives bytes) = record w { stream = w.stream ++ bytes }
  wire_step maximum w polls =
      let polled = settle w.received (poll postcard fill maximum false w.reading w.stream) in
      if w.over then w else polled
  wire_step maximum w queue_ready = if w.over then w else record w { reading = not_started }

  unfoldable pub wire_run : ℕ → Wire E T → List WireEvent → Wire E T
  wire_run maximum w [] = w
  wire_run maximum w (event ∷ events) = wire_run maximum (wire_step maximum w event) events
