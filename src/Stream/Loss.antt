-- ===== src/Stream/Loss.antt =====
-- A run of a streamed request (gateway/internal/http/handlers.go and gateway/internal/grpc/client.go)
-- that loses a result: the loop may see that `errs` was closed before it has read `results`.

use vkr.Prelude.{
  ◌≡◌, refl, sym, true, none, List, [], ◌∷◌, ◌++◌, map, append_assoc, append-nil, arith,
}
use vkr.Stream.{
  finished, forwarding, gone, receiving, ended, by_nil, State, start, ReaderStep, SenderStep,
  ReceiverStep, MainStep, Step,
}
use vkr.Stream.Progress.{Clean, stop, then}

module _ {C R : Type 0} (serve : C → R) where
  -- The stream is open, the frames `cs` are to be read, and the results `ws` were written.
  abbrev between : List C → List R → State C R
  between cs ws = record (start cs) { sender = forwarding; receiver = receiving; written = ws }

  -- The loop has returned, and a result waits in `results`.
  abbrev lost : R → List R → State C R
  lost r ws = record (start {C = C} {R = R} []) {
    reader = finished;
    chunks_closed = true;
    sender = gone;
    half_closed = true;
    receiver = ended;
    results = r ∷ [];
    results_closed = true;
    errs_closed = true;
    main = by_nil;
    cancelled = true;
    written = ws;
  }

  -- A frame goes its whole way.
  one_frame :
      (c : C) (cs : List C) (ws : List R) {t : State C R}
      → Clean serve (between cs (ws ++ serve c ∷ [])) t
      → Clean serve (between (c ∷ cs) ws) t
  one_frame c cs ws rest =
      then (Step.by_reader (ReaderStep.read c cs refl (omega arith) refl)) refl (
        then (Step.by_sender (SenderStep.send c [] refl refl refl)) refl (
          then (Step.by_receiver (ReceiverStep.recv c [] refl refl refl)) refl (
            then (Step.by_receiver (ReceiverStep.put (serve c) refl (omega arith) refl)) refl
              (then (Step.by_main (MainStep.take_result (serve c) [] refl refl refl)) refl rest))))

  -- The lost result is in `results` when the goroutines return.
  closing_down :
      (c : C) (ws : List R)
      → Clean serve (record (between [] ws) { results = serve c ∷ [] }) (lost (serve c) ws)
  closing_down c ws = then (Step.by_reader (ReaderStep.read_end refl refl)) refl (
      then (Step.by_sender (SenderStep.close_send refl refl refl refl)) refl (
        then (Step.by_sender (SenderStep.send_done refl refl)) refl (
          then (Step.by_receiver (ReceiverStep.recv_eof refl refl refl refl)) refl (
            then (Step.by_receiver (ReceiverStep.await none refl refl refl)) refl (
              then (Step.by_receiver (ReceiverStep.close_errs refl refl)) refl (
                then (Step.by_main (MainStep.see_errs_closed refl refl refl refl)) refl
                  (then (Step.by_receiver (ReceiverStep.close_results refl refl)) refl stop)))))))

  -- The last frame goes as far as `results`, and all return.
  last_frame : (c : C) (ws : List R) → Clean serve (between (c ∷ []) ws) (lost (serve c) ws)
  last_frame c ws = then (Step.by_reader (ReaderStep.read c [] refl (omega arith) refl)) refl (
      then (Step.by_sender (SenderStep.send c [] refl refl refl)) refl (
        then (Step.by_receiver (ReceiverStep.recv c [] refl refl refl)) refl (
          then (Step.by_receiver (ReceiverStep.put (serve c) refl (omega arith) refl)) refl
            (closing_down c ws))))

  all_frames :
      (cs : List C) (c : C) (ws : List R)
      → Clean serve (between (cs ++ c ∷ []) ws) (lost (serve c) (ws ++ map serve cs))
  all_frames [] c ws = rw (append-nil ws) (last_frame c ws)
  all_frames (x ∷ cs) c ws = one_frame x (cs ++ c ∷ []) ws (
      rw (sym (append_assoc ws (serve x ∷ []) (map serve cs)))
        (all_frames cs c (ws ++ serve x ∷ [])))

-- Whatever the frames of the body, there is a run in which nothing fails, the reader reads the whole
-- body, the processor answers every frame, every goroutine returns and no error is left, and yet the
-- result of the last frame is not written: it waits in `results` when the loop returns.
pub last_result-lost :
    {C R : Type 0} (serve : C → R) (cs : List C) (c : C)
    → (t : State C R) × Clean serve (start (cs ++ c ∷ [])) t
      × (t.main ≡ by_nil)
      × (t.reader ≡ finished)
      × (t.errs ≡ [])
      × (t.results ≡ serve c ∷ [])
      × (t.written ≡ map serve cs)
last_result-lost serve cs c = (
  lost serve (serve c) (map serve cs),
  then (Step.by_receiver (ReceiverStep.open_stream refl refl)) refl (all_frames serve cs c []),
  refl,
  refl,
  refl,
  refl,
  refl,
)
