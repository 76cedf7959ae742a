-- ===== src/Stream/Tests.antt =====
-- Runs of a streamed request (gateway/internal/http/handlers.go and
-- gateway/internal/grpc/client.go) on a body of one frame, which the processor answers with the next
-- number.
use vkr.Prelude.{ℕ, ◌+◌, ◌≤◌, ◌≡◌, refl, true, none, List, [], ◌∷◌, ◌++◌, map, arith}
use vkr.Stream.{
  forwarding, receiving, finished, gone, ended, closing_errs, by_results, by_nil, State, start,
  ReaderStep, SenderStep, ReceiverStep, MainStep, Step, Steps, here, next,
}
use vkr.Prelude.Text.{str}
use vkr.Media.{ProcessedChunk}
use vkr.Http.Stream.{drain}
use vkr.Http.Tests.{env, handler, at_time, given_back}
use vkr.Stream.Answers.{selections, drain-selections}
use vkr.Prelude.{◌≢◌, length}
use vkr.Stream.Buffers.{channels-bound}
use vkr.Stream.Order.{written_complete}
use vkr.Stream.Progress.{CanEnd, Clean, steps-bound, can_end}
use vkr.Stream.Loss.{last_result-lost}

abbrev body : List ℕ
body = 3 ∷ []

-- The state after the whole of a body of one frame, with the result `r`.
abbrev pub answered : {C R : Type 0} → R → State C R
answered r = record (start []) {
  reader = finished;
  chunks_closed = true;
  sender = gone;
  half_closed = true;
  receiver = ended;
  results_closed = true;
  errs_closed = true;
  main = by_results;
  cancelled = true;
  written = r ∷ [];
}

abbrev pub run :
    {C R : Type 0} (serve : C → R) (c : C) → Steps serve 14 (start (c ∷ [])) (answered (serve c))
run serve c =
    (next
      (next
        (next
          (next
            (next
              (next
                (next
                  (next
                    (next
                      (next
                        (next
                          (next
                            (next
                              (next here (Step.by_receiver (ReceiverStep.open_stream refl refl)))
                              (Step.by_reader (ReaderStep.read c [] refl (omega arith) refl)))
                            (Step.by_sender (SenderStep.send c [] refl refl refl)))
                          (Step.by_receiver (ReceiverStep.recv c [] refl refl refl)))
                        (Step.by_reader (ReaderStep.read_end refl refl)))
                      (Step.by_receiver (ReceiverStep.put (serve c) refl (omega arith) refl)))
                    (Step.by_main (MainStep.take_result (serve c) [] refl refl refl)))
                  (Step.by_sender (SenderStep.close_send refl refl refl refl)))
                (Step.by_receiver (ReceiverStep.recv_eof refl refl refl refl)))
              (Step.by_sender (SenderStep.send_done refl refl)))
            (Step.by_receiver (ReceiverStep.await none refl refl refl)))
          (Step.by_receiver (ReceiverStep.close_errs refl refl)))
        (Step.by_receiver (ReceiverStep.close_results refl refl)))
      (Step.by_main (MainStep.see_results_closed refl refl refl refl)))

written_complete_example : (answered {C = ℕ} 4).written ≡ map (λ x. x + 1) body
written_complete_example =
    written_complete (λ x. x + 1) body 14 (answered 4) (run (λ x. x + 1) 3) refl refl refl

steps-bound_example : 14 ≤ 18
steps-bound_example = steps-bound (λ x. x + 1) body 14 (answered 4) (run (λ x. x + 1) 3)

-- The stream was not opened, and the reader has come to the end.
abbrev unopened : State ℕ ℕ
unopened = record (start []) {
  reader = finished;
  chunks = body;
  chunks_closed = true;
  receiver = closing_errs;
  errs = (str "no stream") ∷ [];
}

abbrev unopened_run : Steps (λ x. x + 1) 3 (start body) unopened
unopened_run =
    next
      (next (next here (Step.by_reader (ReaderStep.read 3 [] refl (omega arith) refl)))
        (Step.by_reader (ReaderStep.read_end refl refl)))
      (Step.by_receiver (ReceiverStep.open_fail (str "no stream") refl refl))

can_end_example : CanEnd (λ x. x + 1) unopened
can_end_example = can_end (λ x. x + 1) body 3 unopened unopened_run

last_result-lost_example :
    (t : State ℕ ℕ) × Clean (λ x. x + 1) (start (7 ∷ 3 ∷ [])) t
    × (t.main ≡ by_nil)
    × (t.reader ≡ finished)
    × (t.errs ≡ [])
    × (t.results ≡ 4 ∷ [])
    × (t.written ≡ 8 ∷ [])
last_result-lost_example = last_result-lost (λ x. x + 1) (7 ∷ []) 3

-- The same with the answers of a processor that gives back a frame of one byte.
abbrev given : ℕ → ProcessedChunk
given b = given_back (b ∷ [])

abbrev short : State ℕ ProcessedChunk
short = record (start []) {
  reader = finished;
  chunks_closed = true;
  sender = forwarding;
  receiver = receiving;
  written = given 3 ∷ [];
}

abbrev short_run : Steps given 7 (start body) short
short_run =
    next
      (next
        (next
          (next
            (next
              (next (next here (Step.by_receiver (ReceiverStep.open_stream refl refl)))
                (Step.by_reader (ReaderStep.read 3 [] refl (omega arith) refl)))
              (Step.by_sender (SenderStep.send 3 [] refl refl refl)))
            (Step.by_receiver (ReceiverStep.recv 3 [] refl refl refl)))
          (Step.by_reader (ReaderStep.read_end refl refl)))
        (Step.by_receiver (ReceiverStep.put (given 3) refl (omega arith) refl)))
      (Step.by_main (MainStep.take_result (given 3) [] refl refl refl))

drain-selections_example :
    ((drain env handler (at_time 5) (λ s. 0) (λ x. true) 5 (selections given short_run) []).0
      ≡ 3 ∷ [])
    × ((rest : List ProcessedChunk) × ((given 3 ∷ []) ++ rest ≡ map given body))
drain-selections_example =
    drain-selections env handler (at_time 5) (λ s. 0) (λ x. true) 5 given body 7 short short_run []

channels-bound_example :
    (length unopened.chunks ≤ 10)
    × (length unopened.results ≤ 100)
    × (length unopened.errs ≤ 1)
    × (unopened.sender ≢ gone → unopened.send_err ≡ none)
channels-bound_example = channels-bound (λ x. x + 1) body 3 unopened unopened_run
