-- ===== src/Transport/PollingTests.antt =====
-- The future of a receive on the bytes of two messages, one byte each.
use rust_state_machine_cowbo.Prelude.{
  ℕ, zero, suc, ◌+◌, ◌<◌, false, List, [], ◌∷◌, ◌++◌, append_assoc, append_nil, length, ok, ◌≡◌,
  refl, sym, ap, ◌∙◌, arith,
}
use rust_state_machine_cowbo.Transport.Frame.{to_be_bytes, send_frame, validate_size, write_frame}
use rust_state_machine_cowbo.Transport.Tests.{codec, codec-Decodes, writing, writes}
use rust_state_machine_cowbo.Transport.Polling.{
  FillsInOrder, reading_length, not_started, pending, starved, on_length, poll, WireEvent, arrives,
  polls, queue_ready, wire_run,
}
use rust_state_machine_cowbo.Transport.Interrupted.{waiting, interruption_loses_bytes}
use rust_state_machine_cowbo.Transport.Pieces.{split_frame_received}

-- Byte for byte.
unfoldable fill : ℕ → List ℕ → List ℕ → ℕ × List ℕ × List ℕ
fill zero got stream = (zero, got, stream)
fill (suc missing) got [] = (suc missing, got, [])
fill (suc missing) got (byte ∷ stream) = fill missing (got ++ byte ∷ []) stream

fill_enough :
    (n : ℕ) (got front back : List ℕ)
    → length front ≡ n
    → fill n got (front ++ back) ≡ (zero, got ++ front, back)
unfolding fill
fill_enough zero got [] back h = ap (λ l. (zero, l, back)) (sym (append_nil got))
fill_enough zero got (x ∷ front) back h = absurd (omega arith)
fill_enough (suc n) got [] back h = absurd (omega arith)
fill_enough (suc n) got (x ∷ front) back h =
    fill_enough n (got ++ x ∷ []) front back (omega (arith, h))
    ∙ ap (λ l. (zero, l, back)) (append_assoc got (x ∷ []) front)

fill_few :
    (n : ℕ) (got xs : List ℕ)
    → length xs < n
    → (m : ℕ) × (m + length xs ≡ n) × (fill n got xs ≡ (m, got ++ xs, []))
unfolding fill
fill_few zero got xs h = absurd (omega arith)
fill_few (suc n) got [] h = (suc n, omega arith, ap (λ l. (suc n, l, [])) (sym (append_nil got)))
fill_few (suc n) got (x ∷ xs) h =
    let (m, size, e) = fill_few n (got ++ x ∷ []) xs (omega (arith, h)) in
    (m, omega (arith, size), e ∙ ap (λ l. (m, l, [])) (append_assoc got (x ∷ []) xs))

fills : FillsInOrder fill
fills = record { enough = fill_enough; few = fill_few }

abbrev start : List ℕ
start = 0 ∷ 0 ∷ 0 ∷ []

abbrev rest : List ℕ
rest = 1 ∷ 7 ∷ 0 ∷ 0 ∷ 0 ∷ 1 ∷ 8 ∷ []

start_pending : (poll codec fill 16 false not_started start).1 ≡ pending (reading_length 1 start)
unfolding poll fill on_length starved
start_pending = refl

-- The rest of the first message and the second one.
abbrev later : List WireEvent
later = arrives rest ∷ polls ∷ []

interruption_loses_bytes_example :
    (wire_run codec fill 16
        (waiting codec fill fills not_started [])
        (arrives start ∷ polls ∷ arrives rest ∷ polls ∷ later)
      ≡ wire_run codec fill 16
          (waiting codec fill fills not_started [])
          (arrives (start ++ rest) ∷ polls ∷ later))
    × (wire_run codec fill 16
          (waiting codec fill fills not_started [])
          (arrives start ∷ polls ∷ queue_ready ∷ later)
        ≡ wire_run codec fill 16 (waiting codec fill fills not_started []) later)
interruption_loses_bytes_example =
    interruption_loses_bytes codec fill fills 16 [] start rest later start_pending

split_frame_received_example :
    wire_run codec fill 16
      (waiting codec fill fills not_started [])
      (arrives start ∷ polls ∷ arrives (1 ∷ 7 ∷ 0 ∷ []) ∷ polls ∷ [])
    ≡ record { reading = not_started; stream = 0 ∷ []; received = ok 7 ∷ []; over = false }
unfolding send_frame validate_size write_frame to_be_bytes
split_frame_received_example =
    split_frame_received codec fill fills writing (λ w. w) [] 16 7 [] start (1 ∷ 7 ∷ []) (0 ∷ [])
      writes codec-Decodes refl refl (omega arith)
