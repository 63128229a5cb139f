-- ===== src/Transport/Tests.antt =====
-- The theorems of the transport on lists of bytes, with messages that are one byte each.
use rust_state_machine_cowbo.Prelude.{
  ℕ, ◌+◌, ◌≤◌, ◌<◌, suc, zero, true, List, [], ◌∷◌, ◌++◌, Result, ok, err, length, ◌≡◌, refl, arith,
}
use rust_state_machine_cowbo.Transport.Error.{
  ErrorKind, TransportError, frame_too_large, unexpected_eof, is_disconnect,
}
use rust_state_machine_cowbo.Transport.Streams.{
  AsyncRead, AsyncWrite, Postcard, ReadsInOrder, WritesInOrder, Decodes,
}
use rust_state_machine_cowbo.Transport.Frame.{
  to_be_bytes, validate_size, write_frame, send_frame, receive_frame,
}
use rust_state_machine_cowbo.Transport.RoundTrip.{send_all, receive_all, receive_all-send_all}
use rust_state_machine_cowbo.Transport.Limits.{
  receive_frame_bounded, oversized_refused, truncated_is_disconnect,
}

unfoldable pub take_exact : List ℕ → ℕ → List ℕ × Result (List ℕ) ErrorKind
take_exact bytes zero = (bytes, ok [])
take_exact [] (suc n) = ([], err unexpected_eof)
take_exact (b ∷ bytes) (suc n) =
    let taken = take_exact bytes n in
    (taken.0, elim taken.1 [ ok front ↦ ok (b ∷ front) | err e ↦ err e ])

abbrev pub reading : AsyncRead (List ℕ)
reading = record { read_exact = take_exact }

abbrev pub writing : AsyncWrite (List ℕ)
writing = record { write_all = λ w bytes. (w ++ bytes, ok tt); flush = λ w. (w, ok tt) }

abbrev decode : List ℕ → Result ℕ (Unit {0})
decode (b ∷ []) = ok b
decode bytes = err tt

abbrev pub codec : Postcard (Unit {0}) ℕ
codec = record { to_allocvec = λ n. ok (n ∷ []); from_bytes = decode }

pub codec-Decodes : Decodes codec
codec-Decodes t payload h = ground (arith, h)

take_exact_enough :
    (r : List ℕ) (n : ℕ) (front back : List ℕ)
    → length front ≡ n
    → r ≡ front ++ back
    → ((take_exact r n).1 ≡ ok front) × ((take_exact r n).0 ≡ back)
unfolding take_exact
take_exact_enough r zero [] back l e = (refl, e)
take_exact_enough r zero (x ∷ front) back l e = absurd (omega arith)
take_exact_enough r (suc n) [] back l e = absurd (omega arith)
take_exact_enough [] (suc n) (x ∷ front) back l e = cc
take_exact_enough (b ∷ r) (suc n) (x ∷ front) back l e =
    ground (arith, take_exact_enough r n front back)

take_exact_short :
    (r : List ℕ) (n : ℕ)
    → length r < n
    → ((take_exact r n).1 ≡ err unexpected_eof) × ((take_exact r n).0 ≡ [])
unfolding take_exact
take_exact_short r zero h = absurd (omega arith)
take_exact_short [] (suc n) h = (refl, refl)
take_exact_short (b ∷ r) (suc n) h = ground (arith, take_exact_short r n)

pub reads : ReadsInOrder reading (λ r. r)
reads = record { enough = take_exact_enough; short = take_exact_short }

pub writes : WritesInOrder writing (λ w. w)
writes = record { write_all_ok = λ w bytes h. refl; flush_ok = λ w h. refl }

-- The frames of 7 and 8, behind a byte that was there before.
abbrev frames : List ℕ
frames = 0 ∷ 0 ∷ 0 ∷ 1 ∷ 7 ∷ 0 ∷ 0 ∷ 0 ∷ 1 ∷ 8 ∷ []

receive_all-send_all_example :
    ((receive_all codec reading (frames ++ 9 ∷ []) 16 2).1 ≡ ok (7 ∷ 8 ∷ []))
    × ((receive_all codec reading (frames ++ 9 ∷ []) 16 2).0 ≡ 9 ∷ [])
unfolding send_all send_frame validate_size write_frame to_be_bytes
receive_all-send_all_example =
    receive_all-send_all codec writing reading (λ w. w) (λ r. r) (5 ∷ []) (frames ++ 9 ∷ []) 16
      (7 ∷ 8 ∷ []) frames (9 ∷ []) codec-Decodes writes reads refl refl refl

receive_frame_bounded_example :
    length frames ≤ length (receive_frame codec reading frames 16).0 + 4 + 16
receive_frame_bounded_example = receive_frame_bounded codec reading (λ r. r) frames 16 reads

oversized_refused_example :
    (send_frame codec writing [] 0 7 ≡ ([], err (frame_too_large 1 0)))
    × ((receive_frame codec reading frames 0).1 ≡ err (frame_too_large 1 0))
    × ((receive_frame codec reading frames 0).0 ≡ 7 ∷ 0 ∷ 0 ∷ 0 ∷ 1 ∷ 8 ∷ [])
unfolding to_be_bytes
oversized_refused_example =
    oversized_refused codec writing reading (λ r. r) [] frames 0 7 (7 ∷ []) (0 ∷ 0 ∷ 0 ∷ 1 ∷ 8 ∷ [])
      reads refl (omega arith) (omega arith) refl

truncated_is_disconnect_example :
    (e : TransportError (Unit {0})) × ((receive_frame codec reading (0 ∷ 0 ∷ 0 ∷ 1 ∷ []) 16).1
      ≡ err e)
    × (is_disconnect e ≡ true)
unfolding send_frame validate_size write_frame to_be_bytes
truncated_is_disconnect_example =
    truncated_is_disconnect codec writing reading (λ w. w) (λ r. r) [] (0 ∷ 0 ∷ 0 ∷ 1 ∷ []) 16 7
      (0 ∷ 0 ∷ 0 ∷ 1 ∷ []) [] 7 writes reads refl refl refl
