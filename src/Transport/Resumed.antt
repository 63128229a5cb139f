-- ===== src/Transport/Resumed.antt =====
-- crates/sam-transport/src/frame.rs: polls of the future of `receive_frame`, one after the other.
use rust_state_machine_cowbo.Prelude.{
  ℕ, zero, suc, Bool, false, List, [], ◌++◌, ok, ◌≡◌, refl, sym, ap, ◌∙◌, ◌⊎◌, inl, inr, arith,
  Result-cases,
}
use rust_state_machine_cowbo.Transport.Streams.{Postcard}
use rust_state_machine_cowbo.Transport.Frame.{from_be_bytes, validate_size}
use rust_state_machine_cowbo.Transport.Filling.{fill_short, fill_resumes, fill_done}
use rust_state_machine_cowbo.Transport.Polling.{
  Reading, reading_length, reading_payload, pending, ReadExact, FillsInOrder, starved, on_payload,
  on_length, poll,
}

module _ {E T : Type 0} (postcard : Postcard E T) (fill : ReadExact) (law : FillsInOrder fill) where
  waits_for_payload :
      (x : ℕ × List ℕ × List ℕ) {reading : Reading}
      → (on_payload postcard fill false x).1 ≡ pending reading
      → (m : ℕ) × (x.0 ≡ suc m) × (reading ≡ reading_payload (suc m) x.1)
  unfolding on_payload starved
  waits_for_payload (zero, got, stream) h = cc
  waits_for_payload (suc m, got, stream) {reading} h = (m, refl, cc)

  -- The end of a stream matters only to a poll that waits.
  payload_resumes :
      (closed : Bool) (n : ℕ) (got xs ys : List ℕ) (maximum : ℕ) {reading : Reading}
      → (on_payload postcard fill false (fill n got xs)).1 ≡ pending reading
      → poll postcard fill maximum closed reading ys
        ≡ on_payload postcard fill closed (fill n got (xs ++ ys))
  unfolding poll
  payload_resumes closed n got xs ys maximum {reading} h =
      let (m, e, r) = waits_for_payload (fill n got xs) h in
      ap (λ k. poll postcard fill maximum closed k ys) r
      ∙ ap (on_payload postcard fill closed) (fill_resumes fill law n got xs ys e)

  length_valid :
      (maximum : ℕ) (closed : Bool) (buffer stream : List ℕ)
      → validate_size {E = E} (from_be_bytes buffer) maximum ≡ ok tt
      → on_length postcard fill maximum closed (zero, buffer, stream)
        ≡ on_payload postcard fill closed (fill (from_be_bytes buffer) [] stream)
  unfolding on_length
  length_valid maximum closed buffer stream valid = rw (on_length, valid) refl

  -- A poll of the length waits for it, or for the payload, of which the bytes behind are the first.
  waits_for_length :
      (maximum : ℕ) (x : ℕ × List ℕ × List ℕ) {reading : Reading}
      → (on_length postcard fill maximum false x).1 ≡ pending reading
      → ((m : ℕ) × (x.0 ≡ suc m) × (reading ≡ reading_length (suc m) x.1))
        ⊎ ((x.0 ≡ zero)
            × (validate_size {E = E} (from_be_bytes x.1) maximum ≡ ok tt)
            × ((on_payload postcard fill false (fill (from_be_bytes x.1) [] x.2)).1
                ≡ pending reading))
  unfolding on_length starved
  waits_for_length maximum (suc m, got, stream) {reading} h = inl (m, refl, cc)
  waits_for_length maximum (zero, got, stream) {reading} h =
      elim (Result-cases (validate_size {E = E} (from_be_bytes got) maximum)) [
        | inr (e, q) ↦ absurd (ground (arith, q, h))
        | inl (_, q) ↦ inr (refl, q, ground (arith, q, h))
      ]

  -- Two polls, with the bytes that have arrived before each, are one poll with all of them.
  pub poll_resumes :
      (maximum : ℕ) (closed : Bool) (reading : Reading) (xs ys : List ℕ) {reading' : Reading}
      → (poll postcard fill maximum false reading xs).1 ≡ pending reading'
      → poll postcard fill maximum closed reading' ys
        ≡ poll postcard fill maximum closed reading (xs ++ ys)
  unfolding poll
  poll_resumes maximum closed (reading_payload n got) xs ys h =
      payload_resumes closed n got xs ys maximum h
  poll_resumes maximum closed (reading_length n got) xs ys h =
      let x = fill n got xs in
      elim (waits_for_length maximum x h) [
        | inl (m, e, r) ↦
            ap (λ k. poll postcard fill maximum closed k ys) r
            ∙ ap (on_length postcard fill maximum closed) (fill_resumes fill law n got xs ys e)
        | inr (z, valid, h') ↦
            payload_resumes closed (from_be_bytes x.1) [] x.2 ys maximum h'
            ∙ sym (length_valid maximum closed x.1 (x.2 ++ ys) valid)
            ∙ ap (on_length postcard fill maximum closed) (sym (fill_done fill law n got xs ys z))
      ]

  payload_stream :
      (closed : Bool) (x : ℕ × List ℕ × List ℕ) → (on_payload postcard fill closed x).0 ≡ x.2
  unfolding on_payload
  payload_stream closed (zero, got, stream) = refl
  payload_stream closed (suc m, got, stream) = refl

  length_stream :
      (maximum : ℕ) (closed : Bool) (x : ℕ × List ℕ × List ℕ) {m : ℕ}
      → x.0 ≡ suc m
      → (on_length postcard fill maximum closed x).0 ≡ x.2
  unfolding on_length
  length_stream maximum closed (zero, got, stream) h = cc
  length_stream maximum closed (suc m, got, stream) h = refl

  payload_used_up :
      (n : ℕ) (got xs : List ℕ) {reading : Reading}
      → (on_payload postcard fill false (fill n got xs)).1 ≡ pending reading
      → (on_payload postcard fill false (fill n got xs)).0 ≡ []
  payload_used_up n got xs h =
      let (m, e, _) = waits_for_payload (fill n got xs) h in
      payload_stream false (fill n got xs) ∙ fill_short fill law n got xs e

  -- A poll that waits has taken all there was.
  pub pending_stream :
      (maximum : ℕ) (reading : Reading) (xs : List ℕ) {reading' : Reading}
      → (poll postcard fill maximum false reading xs).1 ≡ pending reading'
      → (poll postcard fill maximum false reading xs).0 ≡ []
  unfolding poll
  pending_stream maximum (reading_payload n got) xs h = payload_used_up n got xs h
  pending_stream maximum (reading_length n got) xs h =
      let x = fill n got xs in
      elim (waits_for_length maximum x h) [
        | inl (m, e, _) ↦ length_stream maximum false x e ∙ fill_short fill law n got xs e
        | inr (z, valid, h') ↦
            ap (λ k. (on_length postcard fill maximum false (k, x.1, x.2)).0) z
            ∙ ap (λ r. r.0) (length_valid maximum false x.1 x.2 valid)
            ∙ payload_used_up (from_be_bytes x.1) [] x.2 h'
      ]
