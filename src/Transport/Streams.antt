-- ===== src/Transport/Streams.antt =====
-- What the framed transport uses of tokio's streams and of postcard, and what it relies on.
use rust_state_machine_cowbo.Prelude.{ℕ, ◌<◌, List, [], ◌++◌, Result, ok, err, ◌≡◌, length}
use rust_state_machine_cowbo.Transport.Error.{ErrorKind, unexpected_eof}

pub record AsyncRead (R : Type 0) : Type 0 where
  pub read_exact : R → ℕ → R × Result (List ℕ) ErrorKind

pub record AsyncWrite (W : Type 0) : Type 0 where
  pub write_all : W → List ℕ → W × Result (Unit {0}) ErrorKind
  pub flush : W → W × Result (Unit {0}) ErrorKind

pub record Postcard (E T : Type 0) : Type 0 where
  pub to_allocvec : T → Result (List ℕ) E
  pub from_bytes : List ℕ → Result T E

-- `read_exact` returns the next bytes if there are enough of them before the end of the stream, and
-- otherwise fails with `UnexpectedEof` there. `pending` is what the stream still brings.
pub record ReadsInOrder {R : Type 0} (reading : AsyncRead R) (pending : R → List ℕ) : Type 0 where
  pub enough :
      (r : R) (n : ℕ) (front back : List ℕ)
      → length front ≡ n
      → pending r ≡ front ++ back
      → ((reading.read_exact r n).1 ≡ ok front) × (pending (reading.read_exact r n).0 ≡ back)
  pub short :
      (r : R) (n : ℕ)
      → length (pending r) < n
      → ((reading.read_exact r n).1 ≡ err unexpected_eof)
        × (pending (reading.read_exact r n).0 ≡ [])

-- `write_all`, when it succeeds, has written all the bytes after those before, and `flush` writes
-- no bytes of its own.
pub record WritesInOrder {W : Type 0} (writing : AsyncWrite W) (written : W → List ℕ) : Type 0 where
  pub write_all_ok :
      (w : W) (bytes : List ℕ)
      → (writing.write_all w bytes).1 ≡ ok tt
      → written (writing.write_all w bytes).0 ≡ written w ++ bytes
  pub flush_ok : (w : W) → (writing.flush w).1 ≡ ok tt → written (writing.flush w).0 ≡ written w

-- What postcard encodes, it decodes again.
abbrev pub Decodes : {E T : Type 0} → Postcard E T → Type 0
Decodes {E} {T} postcard =
    (t : T) (payload : List ℕ)
    → postcard.to_allocvec t ≡ ok payload
    → postcard.from_bytes payload ≡ ok t
