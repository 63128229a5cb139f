-- ===== src/Transport/Pieces.antt =====
-- crates/sam-transport/src/frame.rs: a frame that arrives in two pieces.
use rust_state_machine_cowbo.Prelude.{
  ℕ, zero, suc, ◌+◌, length-append, ◌≢◌, inl, inr, arith, ◌≤◌, ◌<◌, ◌^◌, false, List, [], ◌∷◌, ◌++◌,
  append_assoc, length, Result, ok, ◌≡◌, refl, sym, ap, ◌∙◌,
}
use rust_state_machine_cowbo.Transport.Error.{TransportError}
use rust_state_machine_cowbo.Transport.Streams.{AsyncWrite, Postcard, WritesInOrder, Decodes}
use rust_state_machine_cowbo.Transport.Frame.{to_be_bytes, send_frame}
use rust_state_machine_cowbo.Transport.RoundTrip.{
  from_be_bytes-to_be_bytes, length-to_be_bytes, validate_size_ok, frame, append_cancel,
  send_frame_cases,
}
use rust_state_machine_cowbo.Transport.Filling.{split_at}
use rust_state_machine_cowbo.Transport.Interrupted.{waiting, interruption_loses_bytes}
use rust_state_machine_cowbo.Transport.Polling.{
  Reading, reading_length, reading_payload, starved, ReadExact, FillsInOrder, not_started, pending,
  finished, on_length, on_payload, poll, arrives, polls, settle, wire_step, wire_run,
}

-- Two ways to cut a list at the same place.
append_eq :
    (xs bytes ys zs : List ℕ)
    → length xs ≡ length bytes
    → xs ++ ys ≡ bytes ++ zs
    → (xs ≡ bytes) × (ys ≡ zs)
append_eq [] [] ys zs h e = (refl, e)
append_eq [] (b ∷ bytes) ys zs h e = absurd (omega (arith, h))
append_eq (x ∷ xs) [] ys zs h e = absurd (omega (arith, h))
append_eq (x ∷ xs) (b ∷ bytes) ys zs h e =
    let (same, rest) = append_eq xs bytes ys zs (omega (arith, h)) (tails x b _ _ e).1 in
    (ap (λ l. x ∷ l) same ∙ ap (λ c. c ∷ bytes) (tails x b (xs ++ ys) (bytes ++ zs) e).0, rest)
  where
    tails : (x b : ℕ) (l k : List ℕ) → x ∷ l ≡ b ∷ k → (x ≡ b) × (l ≡ k)
    tails x b l k e = (cc, cc)

module _ {E T : Type 0} (postcard : Postcard E T) (fill : ReadExact) (law : FillsInOrder fill) where
  waiting_length :
      (maximum : ℕ) (x : ℕ × List ℕ × List ℕ)
      → x.0 ≢ zero
      → (reading : Reading) × ((on_length postcard fill maximum false x).1 ≡ pending reading)
  unfolding on_length starved
  waiting_length maximum (zero, got, stream) h = absurd (h refl)
  waiting_length maximum (suc m, got, stream) h = (reading_length (suc m) got, refl)

  waiting_payload :
      (x : ℕ × List ℕ × List ℕ)
      → x.0 ≢ zero
      → (reading : Reading) × ((on_payload postcard fill false x).1 ≡ pending reading)
  unfolding on_payload starved
  waiting_payload (zero, got, stream) h = absurd (h refl)
  waiting_payload (suc m, got, stream) h = (reading_payload (suc m) got, refl)

  few_left : (n : ℕ) (got xs : List ℕ) → length xs < n → (fill n got xs).0 ≢ zero
  few_left n got xs h none =
      let (m, size, e) = law.few n got xs h in
      let left : m ≡ zero = sym (ap (λ x. x.0) e) ∙ none in omega (arith, h, size, left)

  poll-to_be_bytes :
      (maximum : ℕ) (payload back : List ℕ)
      → length payload ≤ maximum
      → length payload < 2 ^ 32
      → poll postcard fill maximum false not_started (to_be_bytes (length payload) ++ back)
        ≡ on_payload postcard fill false (fill (length payload) [] back)
  unfolding poll on_length
  poll-to_be_bytes maximum payload back bound small =
      rw
        (
          law.enough 4 [] (to_be_bytes (length payload)) back (length-to_be_bytes (length payload)),
          on_length,
          from_be_bytes-to_be_bytes (length payload) small,
          validate_size_ok {E = E} (length payload) maximum bound,
          from_be_bytes-to_be_bytes (length payload) small,
        )
        refl

  poll-frame :
      (maximum : ℕ) (message : T) (payload more : List ℕ)
      → length payload ≤ maximum
      → length payload < 2 ^ 32
      → postcard.from_bytes payload ≡ ok message
      → poll postcard fill maximum false not_started (frame payload ++ more)
        ≡ (more, finished (ok message))
  unfolding on_payload
  poll-frame maximum message payload more bound small decoded =
      ap (poll postcard fill maximum false not_started)
        (append_assoc (to_be_bytes (length payload)) payload more)
      ∙ poll-to_be_bytes maximum payload (payload ++ more) bound small
      ∙ rw (law.enough (length payload) [] payload more refl, decoded) refl

  prefix_pending :
      (maximum : ℕ) (payload xs ys : List ℕ)
      → length payload ≤ maximum
      → length payload < 2 ^ 32
      → xs ++ ys ≡ frame payload
      → 0 < length ys
      → (reading : Reading) × ((poll postcard fill maximum false not_started xs).1
          ≡ pending reading)
  unfolding poll
  prefix_pending maximum payload xs ys bound small e some_left =
      let bytes = to_be_bytes (length payload) in
      elim (split_at 4 xs) [
        | inl few ↦ waiting_length maximum (fill 4 [] xs) (few_left 4 [] xs few)
        | inr (front, back, cut, size) ↦
            let (same, rest) =
              append_eq front bytes (back ++ ys) payload
                (size ∙ sym (length-to_be_bytes (length payload)))
                (sym (append_assoc front back ys) ∙ ap (λ l. l ++ ys) (sym cut) ∙ e) in
            let begins : xs ≡ bytes ++ back = cut ∙ ap (λ l. l ++ back) same in
            let total : length back + length ys ≡ length payload =
              sym (length-append back ys) ∙ ap length rest in
            let (reading, waits) =
              waiting_payload (fill (length payload) [] back)
                (few_left (length payload) [] back (omega (arith, some_left, total))) in
            (
              reading,
              ap (λ l. (poll postcard fill maximum false not_started l).1) begins
                  ∙ ap (λ p. p.1) (poll-to_be_bytes maximum payload back bound small)
                  ∙ waits,
            )
      ]

  -- When a frame that was sent arrives in two pieces, of which the second is not empty, a session that
  -- waits for a message at its start, and still does after the first piece, receives after the second
  -- the message that was sent, and the bytes behind the frame stay on the stream; given that postcard
  -- decodes what it encodes, that streams keep the order of bytes, and that `read_exact` fills its buffer
  -- in that order.
  pub split_frame_received :
      {W : Type 0} (writing : AsyncWrite W) (written : W → List ℕ) (w : W) (maximum : ℕ)
      (message : T) (received : List (Result T (TransportError E))) (xs ys more : List ℕ)
      → WritesInOrder writing written
      → Decodes postcard
      → (send_frame postcard writing w maximum message).1 ≡ ok tt
      → written (send_frame postcard writing w maximum message).0 ≡ written w ++ (xs ++ ys)
      → 0 < length ys
      → wire_run postcard fill maximum
          (waiting postcard fill law not_started received)
          (arrives xs ∷ polls ∷ arrives (ys ++ more) ∷ polls ∷ [])
        ≡ record {
          reading = not_started;
          stream = more;
          received = received ++ ok message ∷ [];
          over = false;
        }
  unfolding wire_run wire_step settle
  split_frame_received writing written w maximum message received xs ys more wl codec sent wrote h =
      let (payload, encoded, bound, small, put) =
        send_frame_cases postcard writing written wl w maximum message sent in
      let whole : xs ++ ys ≡ frame payload = append_cancel (written w) _ _ (sym wrote ∙ put) in
      let all : xs ++ (ys ++ more) ≡ frame payload ++ more =
        sym (append_assoc xs ys more) ∙ ap (λ l. l ++ more) whole in
      let (_, waits) = prefix_pending maximum payload xs ys bound small whole h in
      (interruption_loses_bytes postcard fill law maximum received xs (ys ++ more) [] waits).0
      ∙ ap (settle postcard fill received) (
          ap (poll postcard fill maximum false not_started) all
          ∙ poll-frame maximum message payload more bound small (codec message payload encoded))
