-- ===== src/Transport/RoundTrip.antt =====
-- What one side sends, the other receives.
use rust_state_machine_cowbo.Prelude.{
  append_assoc, append_nil, ℕ, ◌^◌, ◌≤◌, ◌<◌, suc, zero, List, [], ◌∷◌, ◌++◌, Result, ok, question,
  question_ok, question_of, length, ◌≡◌, refl, sym, ap, ◌∙◌, arith, Result-cases, inl, inr,
}
use rust_state_machine_cowbo.Transport.Error.{TransportError, io}
use rust_state_machine_cowbo.Transport.Streams.{
  AsyncRead, AsyncWrite, Postcard, ReadsInOrder, WritesInOrder, Decodes,
}
use rust_state_machine_cowbo.Transport.Frame.{
  to_be_bytes, from_be_bytes, validate_size, send_frame, receive_frame, write_frame,
}

pub from_be_bytes-to_be_bytes : (n : ℕ) → n < 2 ^ 32 → from_be_bytes (to_be_bytes n) ≡ n
unfolding from_be_bytes to_be_bytes
from_be_bytes-to_be_bytes n h = omega arith

pub length-to_be_bytes : (n : ℕ) → length (to_be_bytes n) ≡ 4
unfolding to_be_bytes
length-to_be_bytes n = refl

pub validate_size_ok :
    {E : Type 0} (actual maximum : ℕ)
    → actual ≤ maximum
    → validate_size {E = E} actual maximum ≡ ok tt
unfolding validate_size
validate_size_ok actual maximum h = ground arith

-- The bytes of one message on the stream.
abbrev pub frame : List ℕ → List ℕ
frame payload = to_be_bytes (length payload) ++ payload

pub append_cancel : (xs ys zs : List ℕ) → xs ++ ys ≡ xs ++ zs → ys ≡ zs
append_cancel [] ys zs h = h
append_cancel (x ∷ xs) ys zs h = append_cancel xs ys zs (tail_eq h)
  where
    tail_eq : x ∷ (xs ++ ys) ≡ x ∷ (xs ++ zs) → xs ++ ys ≡ xs ++ zs
    tail_eq e = cc

module _ {E T : Type 0} (postcard : Postcard E T) where
  write_frame_lem :
      {W : Type 0} (writing : AsyncWrite W) (written : W → List ℕ)
      → WritesInOrder writing written
      → (w : W) (payload : List ℕ) → (write_frame postcard writing w payload).1 ≡ ok tt
      → written (write_frame postcard writing w payload).0 ≡ written w ++ frame payload
  unfolding write_frame
  write_frame_lem writing written law w payload h =
      let (_, a, e) = question_ok io (writing.write_all w (to_be_bytes (length payload))) _ h in
      let w₁ = (writing.write_all w (to_be_bytes (length payload))).0 in
      let (_, b, f) = question_ok io (writing.write_all w₁ payload) _ (sym (ap (λ x. x.1) e) ∙ h) in
      let w₂ = (writing.write_all w₁ payload).0 in
      let (_, c, g) = question_ok io (writing.flush w₂) _ (sym (ap (λ x. x.1) (e ∙ f)) ∙ h) in
      ap (λ x. written x.0) (e ∙ f ∙ g)
      ∙ law.flush_ok w₂ c
      ∙ law.write_all_ok w₁ payload b
      ∙ ap (λ l. l ++ payload) (law.write_all_ok w (to_be_bytes (length payload)) a)
      ∙ append_assoc (written w) (to_be_bytes (length payload)) payload

  pub send_frame_cases :
      {W : Type 0} (writing : AsyncWrite W) (written : W → List ℕ)
      → WritesInOrder writing written
      → (w : W) (maximum : ℕ) (message : T)
      → (send_frame postcard writing w maximum message).1 ≡ ok tt
      → (payload : List ℕ) × (postcard.to_allocvec message ≡ ok payload)
        × (length payload ≤ maximum)
        × (length payload < 2 ^ 32)
        × (written (send_frame postcard writing w maximum message).0 ≡ written w ++ frame payload)
  unfolding send_frame validate_size
  send_frame_cases writing written law w maximum message h =
      elim (Result-cases (postcard.to_allocvec message)) [
        | inr (e, q) ↦ ground (arith, q)
        | inl (payload, q) ↦ ground (arith, q, write_frame_lem writing written law w payload)
      ]

  pub receive_frame_lem :
      {R : Type 0} (reading : AsyncRead R) (pending : R → List ℕ)
      → ReadsInOrder reading pending
      → (r : R) (maximum : ℕ) (message : T) (payload rest : List ℕ) → length payload ≤ maximum
      → length payload < 2 ^ 32
      → postcard.from_bytes payload ≡ ok message
      → pending r ≡ frame payload ++ rest
      → ((receive_frame postcard reading r maximum).1 ≡ ok message)
        × (pending (receive_frame postcard reading r maximum).0 ≡ rest)
  unfolding receive_frame
  receive_frame_lem reading pending law r maximum message payload rest bound small decoded p =
      let bytes = to_be_bytes (length payload) in
      let (e₁, p₁) =
        law.enough r 4 bytes (payload ++ rest) (length-to_be_bytes (length payload))
          (p ∙ append_assoc bytes payload rest) in
      let (e₂, p₂) = law.enough _ (length payload) payload rest refl p₁ in
      rw
        (
          question_of io (reading.read_exact r 4) _ e₁,
          from_be_bytes-to_be_bytes (length payload) small,
          validate_size_ok {E = E} (length payload) maximum bound,
          from_be_bytes-to_be_bytes (length payload) small,
          question_of io (reading.read_exact (reading.read_exact r 4).0 (length payload)) _ e₂,
          decoded,
        )
        (refl, p₂)

  -- A run of sends, which ends at the first error.
  unfoldable pub send_all :
      {W : Type 0} → AsyncWrite W → W → ℕ → List T → W × Result (Unit {0}) (TransportError E)
  send_all writing writer maximum [] = (writer, ok tt)
  send_all writing writer maximum (message ∷ messages) =
      question (λ e. e) (send_frame postcard writing writer maximum message)
        λ writer _. send_all writing writer maximum messages

  -- The same of `count` receives.
  unfoldable pub receive_all :
      {R : Type 0} → AsyncRead R → R → ℕ → ℕ → R × Result (List T) (TransportError E)
  receive_all reading reader maximum zero = (reader, ok [])
  receive_all reading reader maximum (suc count) =
      question (λ e. e) (receive_frame postcard reading reader maximum)
        λ reader message.
          question (λ e. e) (receive_all reading reader maximum count)
            λ reader messages. (reader, ok (message ∷ messages))

  -- `out` is what the messages put on the stream, and from it they are received.
  send_all_cases :
      {W R : Type 0} (writing : AsyncWrite W) (reading : AsyncRead R) (written : W → List ℕ)
      (pending : R → List ℕ) (w : W) (maximum : ℕ) (messages : List T)
      → Decodes postcard
      → WritesInOrder writing written
      → ReadsInOrder reading pending
      → (send_all writing w maximum messages).1 ≡ ok tt
      → (out : List ℕ) × (written (send_all writing w maximum messages).0 ≡ written w ++ out)
        × ((r : R) (rest : List ℕ)
            → pending r ≡ out ++ rest
            → ((receive_all reading r maximum (length messages)).1 ≡ ok messages)
              × (pending (receive_all reading r maximum (length messages)).0 ≡ rest))
  unfolding send_all receive_all
  send_all_cases writing reading written pending w maximum [] codec wl rl h =
      ([], sym (append_nil (written w)), λ r rest p. (refl, p))
  send_all_cases writing reading written pending w maximum (m ∷ ms) codec wl rl h =
      let (_, a, e) = question_ok (λ x. x) (send_frame postcard writing w maximum m) _ h in
      let (payload, encoded, bound, small, wrote) =
        send_frame_cases writing written wl w maximum m a in
      let w₁ = (send_frame postcard writing w maximum m).0 in
      let (out, wrote', receives) =
        send_all_cases writing reading written pending w₁ maximum ms codec wl rl
          (sym (ap (λ x. x.1) e) ∙ h) in
      (
        frame payload ++ out,
        ap (λ x. written x.0) e
            ∙ wrote'
            ∙ ap (λ l. l ++ out) wrote
            ∙ append_assoc (written w) (frame payload) out,
        λ r rest p.
            let (got, left) =
              receive_frame_lem reading pending rl r maximum m payload (out ++ rest) bound small
                (codec m payload encoded) (p ∙ append_assoc (frame payload) out rest) in
            let (got', left') = receives (receive_frame postcard reading r maximum).0 rest left in
            rw
              (
                question_of (λ x. x) (receive_frame postcard reading r maximum) _ got,
                question_of (λ x. x)
                    (receive_all reading (receive_frame postcard reading r maximum).0 maximum
                      (length ms))
                    _ got',
              )
              (refl, left'),
      )

  -- When all messages were sent, what was written brings the other side, from any stream that goes
  -- on with it, the same messages in the same order, and nothing after them is taken.
  pub receive_all-send_all :
      {W R : Type 0} (writing : AsyncWrite W) (reading : AsyncRead R) (written : W → List ℕ)
      (pending : R → List ℕ) (w : W) (r : R) (maximum : ℕ) (messages : List T) (out rest : List ℕ)
      → Decodes postcard
      → WritesInOrder writing written
      → ReadsInOrder reading pending
      → (send_all writing w maximum messages).1 ≡ ok tt
      → written (send_all writing w maximum messages).0 ≡ written w ++ out
      → pending r ≡ out ++ rest
      → ((receive_all reading r maximum (length messages)).1 ≡ ok messages)
        × (pending (receive_all reading r maximum (length messages)).0 ≡ rest)
  receive_all-send_all writing reading written pending w r maximum messages out rest codec wl rl h o
        p =
      let (out', wrote, receives) =
        send_all_cases writing reading written pending w maximum messages codec wl rl h in
      receives r rest (p ∙ ap (λ l. l ++ rest) (append_cancel (written w) out out' (sym o ∙ wrote)))
