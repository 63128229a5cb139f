-- ===== src/Transport/Interrupted.antt =====
-- crates/sam-service/src/server.rs: what the `select!` of a session does to a message that has not
-- arrived as a whole.
use rust_state_machine_cowbo.Prelude.{ℕ, false, List, [], ◌∷◌, ◌++◌, Result, ◌≡◌, refl, ap, ◌∙◌}
use rust_state_machine_cowbo.Transport.Error.{TransportError}
use rust_state_machine_cowbo.Transport.Streams.{Postcard}
use rust_state_machine_cowbo.Transport.Resumed.{poll_resumes, pending_stream}
use rust_state_machine_cowbo.Transport.Polling.{
  Reading, ReadExact, FillsInOrder, not_started, pending, poll, WireEvent, arrives, polls,
  queue_ready, Wire, settle, wire_step, wire_run,
}

module _ {E T : Type 0} (postcard : Postcard E T) (fill : ReadExact) (law : FillsInOrder fill) where
  -- A session that waits, with nothing on the stream.
  abbrev pub waiting : Reading → List (Result T (TransportError E)) → Wire E T
  waiting reading received = record {
    reading = reading;
    stream = [];
    received = received;
    over = false;
  }

  -- One poll of the bytes that have just arrived, while the future still waits.
  step_pending :
      (maximum : ℕ) (reading reading' : Reading) (received : List (Result T (TransportError E)))
      (xs : List ℕ)
      → (poll postcard fill maximum false reading xs).1 ≡ pending reading'
      → wire_step postcard fill maximum
          (wire_step postcard fill maximum (waiting reading received) (arrives xs))
          polls
        ≡ waiting reading' received
  unfolding wire_step settle
  step_pending maximum reading reading' received xs h =
      ap (λ p. settle postcard fill received (p, (poll postcard fill maximum false reading xs).1))
        (pending_stream postcard fill law maximum reading xs h)
      ∙ ap (λ p. settle postcard fill received ([], p)) h

  step_poll :
      (maximum : ℕ) (w v : Wire E T)
      → poll postcard fill maximum false w.reading w.stream
        ≡ poll postcard fill maximum false v.reading v.stream
      → w.received ≡ v.received
      → w.over ≡ false
      → v.over ≡ false
      → wire_step postcard fill maximum w polls ≡ wire_step postcard fill maximum v polls
  unfolding wire_step
  step_poll maximum w v h k going going' =
      rw (going, going')
        (ap (settle postcard fill w.received) h
          ∙ ap (λ r. settle postcard fill r (poll postcard fill maximum false v.reading v.stream))
              k)

  -- While a message has arrived in part: if the session goes on to wait for it, the rest completes it
  -- as if all had come at once; but if the queue is ready first, what has arrived is lost, and the
  -- session goes on as if it had never been sent.
  pub interruption_loses_bytes :
      (maximum : ℕ) (received : List (Result T (TransportError E))) (xs ys : List ℕ)
      (events : List WireEvent) {reading : Reading}
      → (poll postcard fill maximum false not_started xs).1 ≡ pending reading
      → let idle = waiting not_started received in
        (wire_run postcard fill maximum idle (arrives xs ∷ polls ∷ arrives ys ∷ polls ∷ events)
          ≡ wire_run postcard fill maximum idle (arrives (xs ++ ys) ∷ polls ∷ events))
        × (wire_run postcard fill maximum idle (arrives xs ∷ polls ∷ queue_ready ∷ events)
            ≡ wire_run postcard fill maximum idle events)
  unfolding wire_run wire_step
  interruption_loses_bytes maximum received xs ys events {reading} h =
      let waits = step_pending maximum not_started reading received xs h in
      (
        ap
              (λ w.
                wire_run postcard fill maximum
                  (wire_step postcard fill maximum (wire_step postcard fill maximum w (arrives ys))
                    polls)
                  events)
              waits
            ∙ ap (λ w. wire_run postcard fill maximum w events)
                (step_poll maximum (waiting_with reading received ys)
                  (waiting_with not_started received (xs ++ ys))
                  (poll_resumes postcard fill law maximum false not_started xs ys h) refl refl
                  refl),
        ap
            (λ w.
              wire_run postcard fill maximum (wire_step postcard fill maximum w queue_ready) events)
            waits,
      )
    where
      waiting_with : Reading → List (Result T (TransportError E)) → List ℕ → Wire E T
      waiting_with reading received stream = record {
        reading = reading;
        stream = stream;
        received = received;
        over = false;
      }
