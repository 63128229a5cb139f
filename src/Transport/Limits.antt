-- ===== src/Transport/Limits.antt =====
-- How much a receiver takes, and what becomes of frames that are too large or cut short.
use rust_state_machine_cowbo.Prelude.{
  append_assoc, ℕ, ◌+◌, ◌^◌, ◌≤◌, ◌<◌, suc, zero, true, List, [], ◌∷◌, ◌++◌, ok, err, question_of,
  question_err, ltb, length, length-append, ◌≡◌, refl, sym, ap, ◌∙◌, subst, arith, Result-cases,
  Bool-cases, inl, inr, ◌⊎◌,
}
use rust_state_machine_cowbo.Transport.Error.{
  TransportError, io, frame_too_large, unexpected_eof, is_disconnect,
}
use rust_state_machine_cowbo.Transport.Streams.{
  AsyncRead, AsyncWrite, Postcard, ReadsInOrder, WritesInOrder,
}
use rust_state_machine_cowbo.Transport.Frame.{
  to_be_bytes, from_be_bytes, validate_size, send_frame, receive_frame,
}
use rust_state_machine_cowbo.Transport.RoundTrip.{
  frame, from_be_bytes-to_be_bytes, length-to_be_bytes, append_cancel, send_frame_cases,
  validate_size_ok,
}

split_at :
    (n : ℕ) (xs : List ℕ)
    → n ≤ length xs
    → (front back : List ℕ) × (length front ≡ n) × (xs ≡ front ++ back)
split_at zero xs h = ([], xs, refl, refl)
split_at (suc n) [] h = absurd (omega arith)
split_at (suc n) (x ∷ xs) h =
    let (front, back, l, e) = split_at n xs (omega arith) in
    (x ∷ front, back, omega arith, ap (λ l. x ∷ l) e)

-- A list that starts as another does, and is no shorter, goes on where the other ends.
starts_with :
    (us vs xs ys : List ℕ)
    → us ++ vs ≡ xs ++ ys
    → length xs ≤ length us
    → (mid : List ℕ) × (us ≡ xs ++ mid) × (ys ≡ mid ++ vs)
starts_with us vs [] ys e h = (us, refl, sym e)
starts_with [] vs (x ∷ xs) ys e h = absurd (omega arith)
starts_with (u ∷ us) vs (x ∷ xs) ys e h =
    let (mid, a, b) = starts_with us vs xs ys (tail_eq e) (omega arith) in (mid, head_eq mid e a, b)
  where
    tail_eq : u ∷ (us ++ vs) ≡ x ∷ (xs ++ ys) → us ++ vs ≡ xs ++ ys
    tail_eq q = cc

    head_eq :
        (mid : List ℕ) → u ∷ (us ++ vs) ≡ x ∷ (xs ++ ys) → us ≡ xs ++ mid → u ∷ us ≡ x ∷ (xs ++ mid)
    head_eq mid q r = cc

validate_size_cases :
    {E : Type 0} (actual maximum : ℕ)
    → ((actual ≤ maximum) × (validate_size {E = E} actual maximum ≡ ok tt))
      ⊎ ((maximum < actual)
          × (validate_size {E = E} actual maximum ≡ err (frame_too_large actual maximum)))
unfolding validate_size
validate_size_cases actual maximum = ground arith

validate_size_large :
    {E : Type 0} (actual maximum : ℕ)
    → maximum < actual
    → validate_size {E = E} actual maximum ≡ err (frame_too_large actual maximum)
unfolding validate_size
validate_size_large actual maximum h = ground arith

module _ {R : Type 0} (reading : AsyncRead R) (pending : R → List ℕ)
    (law : ReadsInOrder reading pending) where
  read_exact_takes :
      (r : R) (n : ℕ) → length (pending r) ≤ length (pending (reading.read_exact r n).0) + n
  read_exact_takes r n = elim (Bool-cases (ltb (length (pending r)) n)) [
    | inl few ↦ let less : length (pending r) < n = ground arith in omega arith
    | inr many ↦
        let (front, back, l, e) = split_at n (pending r) (ground arith) in
        let (_, p) = law.enough r n front back l e in
        omega (arith, ap length e, ap length p, length-append front back)
  ]

module _ {E T : Type 0} (postcard : Postcard E T) where
  -- Whatever the stream brings, a receive takes the four bytes of the length and at most the maximum
  -- of the connection.
  pub receive_frame_bounded :
      {R : Type 0} (reading : AsyncRead R) (pending : R → List ℕ) (r : R) (maximum : ℕ)
      → ReadsInOrder reading pending
      → length (pending r)
        ≤ length (pending (receive_frame postcard reading r maximum).0) + 4 + maximum
  unfolding receive_frame
  receive_frame_bounded reading pending r maximum law =
      elim (Result-cases (reading.read_exact r 4).1) [
        | inr (e, h) ↦
            rw (question_err io (reading.read_exact r 4) _ h)
              (omega (arith, read_exact_takes reading pending law r 4))
        | inl (bytes, h) ↦
            let r₁ = (reading.read_exact r 4).0 in
            let n = from_be_bytes bytes in
            rw (question_of io (reading.read_exact r 4) _ h)
              (elim (validate_size_cases {E = E} n maximum) [
                | inr (_, large) ↦
                    rw large (omega (arith, read_exact_takes reading pending law r 4))
                | inl (small, accepted) ↦
                    rw accepted (elim (Result-cases (reading.read_exact r₁ n).1) [
                      | inr (e, h') ↦ rw (question_err io (reading.read_exact r₁ n) _ h') (
                          omega (
                            arith,
                            read_exact_takes reading pending law r 4,
                            read_exact_takes reading pending law r₁ n,
                          ))
                      | inl (payload, h') ↦ rw (question_of io (reading.read_exact r₁ n) _ h') (
                          omega (
                            arith,
                            read_exact_takes reading pending law r 4,
                            read_exact_takes reading pending law r₁ n,
                          ))
                    ])
              ])
      ]

  -- A message that is too large is refused by a sender, which writes nothing; and a receiver to which
  -- the frame is sent all the same refuses it by the same error, before it takes any of the payload.
  pub oversized_refused :
      {W R : Type 0} (writing : AsyncWrite W) (reading : AsyncRead R) (pending : R → List ℕ) (w : W)
      (r : R) (maximum : ℕ) (message : T) (payload rest : List ℕ)
      → ReadsInOrder reading pending
      → postcard.to_allocvec message ≡ ok payload
      → maximum < length payload
      → length payload < 2 ^ 32
      → pending r ≡ frame payload ++ rest
      → (send_frame postcard writing w maximum message
          ≡ (w, err (frame_too_large (length payload) maximum)))
        × ((receive_frame postcard reading r maximum).1
            ≡ err (frame_too_large (length payload) maximum))
        × (pending (receive_frame postcard reading r maximum).0 ≡ payload ++ rest)
  unfolding send_frame receive_frame
  oversized_refused writing reading pending w r maximum message payload rest law encoded large small
        p =
      let bytes = to_be_bytes (length payload) in
      let (got, left) =
        law.enough r 4 bytes (payload ++ rest) (length-to_be_bytes (length payload))
          (p ∙ append_assoc bytes payload rest) in
      let refused = validate_size_large {E = E} (length payload) maximum large in
      let e : receive_frame postcard reading r maximum
          ≡ ((reading.read_exact r 4).0, err (frame_too_large (length payload) maximum)) =
        rw
          (
            question_of io (reading.read_exact r 4) _ got,
            from_be_bytes-to_be_bytes (length payload) small,
            refused,
          )
          refl in
      (ground (arith, encoded, refused), ap (λ x. x.1) e, ap (λ x. pending x.0) e ∙ left)

  -- If the stream ends within a frame, the receiver is told of a disconnection.
  pub truncated_is_disconnect :
      {W R : Type 0} (writing : AsyncWrite W) (reading : AsyncRead R) (written : W → List ℕ)
      (pending : R → List ℕ) (w : W) (r : R) (maximum : ℕ) (message : T) (front back : List ℕ)
      (byte : ℕ)
      → WritesInOrder writing written
      → ReadsInOrder reading pending
      → (send_frame postcard writing w maximum message).1 ≡ ok tt
      → written (send_frame postcard writing w maximum message).0
        ≡ written w ++ (front ++ byte ∷ back)
      → pending r ≡ front
      → (e : TransportError E) × ((receive_frame postcard reading r maximum).1 ≡ err e)
        × (is_disconnect e ≡ true)
  unfolding receive_frame
  truncated_is_disconnect writing reading written pending w r maximum message front back byte wl rl
        h o p =
      let (payload, _, bound, small, wrote) =
        send_frame_cases postcard writing written wl w maximum message h in
      let bytes = to_be_bytes (length payload) in
      let out : front ++ byte ∷ back ≡ bytes ++ payload =
        append_cancel (written w) _ _ (sym o ∙ wrote) in
      elim (Bool-cases (ltb (length front) 4)) [
        | inl few ↦ (
          io unexpected_eof,
          rw
              (question_err io (reading.read_exact r 4) _
                ((rl.short r 4 (subst (λ l. length l < 4) (sym p) (ground arith))).0))
              refl,
          refl,
        )
        | inr many ↦
            let (mid, a, b) =
              starts_with front (byte ∷ back) bytes payload out
                (ground (arith, length-to_be_bytes (length payload))) in
            let (got, left) =
              rl.enough r 4 bytes mid (length-to_be_bytes (length payload)) (p ∙ a) in
            let r₁ = (reading.read_exact r 4).0 in
            let less : length (pending r₁) < length payload =
              omega (arith, ap length left, ap length b, length-append mid (byte ∷ back)) in
            (
              io unexpected_eof,
              rw
                  (
                    question_of io (reading.read_exact r 4) _ got,
                    from_be_bytes-to_be_bytes (length payload) small,
                    validate_size_ok {E = E} (length payload) maximum bound,
                    from_be_bytes-to_be_bytes (length payload) small,
                    question_err io (reading.read_exact r₁ (length payload)) _
                        (rl.short r₁ (length payload) less).0,
                  )
                  refl,
              refl,
            )
      ]
