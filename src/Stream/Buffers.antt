-- ===== src/Stream/Buffers.antt =====
-- What waits in the channels of a streamed request (gateway/internal/http/handlers.go and
-- gateway/internal/grpc/client.go).
use vkr.Prelude.{
  ℕ, ◌≤◌, ◌≡◌, ◌≢◌, refl, ap, Bool, true, false, Option, none, some, List, [], ◌∷◌, arith, length,
  length-append,
}
use vkr.Prelude.Text.{Text}
use vkr.Stream.{
  chunks_capacity, results_capacity, Sender, not_started, forwarding, closing, gone, Receiver,
  opening, receiving, awaiting, closing_errs, closing_results, ended, holding, State, start, report,
  ReaderStep, SenderStep, ReceiverStep, MainStep, Step, Steps, here, next,
}

-- The receiver has made its last send on `errs`.
abbrev is_over : {R : Type 0} → Receiver R → Bool
is_over opening = false
is_over receiving = false
is_over (holding r) = false
is_over awaiting = false
is_over closing_errs = true
is_over closing_results = true
is_over ended = true

abbrev is_gone : Sender → Bool
is_gone not_started = false
is_gone forwarding = false
is_gone closing = false
is_gone gone = true

-- What waits in each channel; the receiver and the sender have sent no error before they return.
record Fits {C R : Type 0} (s : State C R) : Type 0 where
  chunks : length s.chunks ≤ chunks_capacity
  results : length s.results ≤ results_capacity
  quiet : is_over s.receiver ≡ false → s.errs ≡ []
  errs : length s.errs ≤ 1
  pending : is_gone s.sender ≡ false → s.send_err ≡ none
  first : s.receiver ≡ opening → s.sender ≡ not_started

report-few : (e : Option Text) (es : List Text) → es ≡ [] → length (report e es) ≤ 1
report-few none es quiet = rw quiet (omega arith)
report-few (some e) es quiet = rw quiet (omega arith)

ReaderStep-Fits : {C R : Type 0} {s t : State C R} → ReaderStep s t → Fits s → Fits t
ReaderStep-Fits {s = s} (ReaderStep.read c cs reads room e) inv = rw e (record {
  chunks = omega (arith, length-append s.chunks (c ∷ []));
  results = inv.results;
  quiet = inv.quiet;
  errs = inv.errs;
  pending = inv.pending;
  first = inv.first;
})
ReaderStep-Fits {s = s} (ReaderStep.read_end reads e) inv = rw e (record {
  chunks = inv.chunks;
  results = inv.results;
  quiet = inv.quiet;
  errs = inv.errs;
  pending = inv.pending;
  first = inv.first;
})
ReaderStep-Fits {s = s} (ReaderStep.read_cancel c cs reads stop e) inv = rw e (record {
  chunks = inv.chunks;
  results = inv.results;
  quiet = inv.quiet;
  errs = inv.errs;
  pending = inv.pending;
  first = inv.first;
})

SenderStep-Fits : {C R : Type 0} {s t : State C R} → SenderStep s t → Fits s → Fits t
SenderStep-Fits {s = s} (SenderStep.send c cs sends chunks e) inv = rw e (record {
  chunks = let full = inv.chunks in let same = ap length chunks in omega (arith, full, same);
  results = inv.results;
  quiet = inv.quiet;
  errs = inv.errs;
  pending = inv.pending;
  first = inv.first;
})
SenderStep-Fits {s = s} (SenderStep.send_fail c cs msg sends chunks e) inv = rw e (record {
  chunks = let full = inv.chunks in let same = ap length chunks in omega (arith, full, same);
  results = inv.results;
  quiet = inv.quiet;
  errs = inv.errs;
  pending = λ a. cc;
  first = λ a. cc (inv.first a);
})
SenderStep-Fits {s = s} (SenderStep.close_send sends chunks shut e) inv = rw e (record {
  chunks = inv.chunks;
  results = inv.results;
  quiet = inv.quiet;
  errs = inv.errs;
  pending = λ a. inv.pending (ap is_gone sends);
  first = λ a. cc (inv.first a);
})
SenderStep-Fits {s = s} (SenderStep.send_done sends e) inv = rw e (record {
  chunks = inv.chunks;
  results = inv.results;
  quiet = inv.quiet;
  errs = inv.errs;
  pending = λ a. cc;
  first = λ a. cc (inv.first a);
})

ReceiverStep-Fits :
    {C R : Type 0} {serve : C → R} {s t : State C R} → ReceiverStep serve s t → Fits s → Fits t
ReceiverStep-Fits {s = s} (ReceiverStep.open_stream opens e) inv = rw e (record {
  chunks = inv.chunks;
  results = inv.results;
  quiet = λ a. inv.quiet (ap is_over opens);
  errs = inv.errs;
  pending = λ a. inv.pending (ap is_gone (inv.first opens));
  first = λ a. cc;
})
ReceiverStep-Fits {s = s} (ReceiverStep.open_fail msg opens e) inv = rw e (record {
  chunks = inv.chunks;
  results = inv.results;
  quiet = λ a. cc;
  errs = rw (inv.quiet (ap is_over opens)) (omega arith);
  pending = inv.pending;
  first = λ a. cc;
})
ReceiverStep-Fits {s = s} (ReceiverStep.recv c cs takes flies e) inv = rw e (record {
  chunks = inv.chunks;
  results = inv.results;
  quiet = λ a. inv.quiet (ap is_over takes);
  errs = inv.errs;
  pending = inv.pending;
  first = λ a. cc;
})
ReceiverStep-Fits {s = s} (ReceiverStep.recv_eof takes flies shut e) inv = rw e (record {
  chunks = inv.chunks;
  results = inv.results;
  quiet = λ a. inv.quiet (ap is_over takes);
  errs = inv.errs;
  pending = inv.pending;
  first = λ a. cc;
})
ReceiverStep-Fits {s = s} (ReceiverStep.recv_fail msg takes e) inv = rw e (record {
  chunks = inv.chunks;
  results = inv.results;
  quiet = λ a. cc;
  errs = rw (inv.quiet (ap is_over takes)) (omega arith);
  pending = inv.pending;
  first = λ a. cc;
})
ReceiverStep-Fits {s = s} (ReceiverStep.put r holds room e) inv = rw e (record {
  chunks = inv.chunks;
  results = omega (arith, length-append s.results (r ∷ []));
  quiet = λ a. inv.quiet (ap is_over holds);
  errs = inv.errs;
  pending = inv.pending;
  first = λ a. cc;
})
ReceiverStep-Fits {s = s} (ReceiverStep.put_cancel r msg holds stop e) inv = rw e (record {
  chunks = inv.chunks;
  results = inv.results;
  quiet = λ a. cc;
  errs = rw (inv.quiet (ap is_over holds)) (omega arith);
  pending = inv.pending;
  first = λ a. cc;
})
ReceiverStep-Fits {s = s} (ReceiverStep.await msg takes answers e) inv = rw e (record {
  chunks = inv.chunks;
  results = inv.results;
  quiet = λ a. cc;
  errs = report-few msg s.errs (inv.quiet (ap is_over takes));
  pending = λ a. refl;
  first = λ a. cc;
})
ReceiverStep-Fits {s = s} (ReceiverStep.close_errs leaves e) inv = rw e (record {
  chunks = inv.chunks;
  results = inv.results;
  quiet = λ a. cc;
  errs = inv.errs;
  pending = inv.pending;
  first = λ a. cc;
})
ReceiverStep-Fits {s = s} (ReceiverStep.close_results leaves e) inv = rw e (record {
  chunks = inv.chunks;
  results = inv.results;
  quiet = λ a. cc;
  errs = inv.errs;
  pending = inv.pending;
  first = λ a. cc;
})

MainStep-Fits : {C R : Type 0} {s t : State C R} → MainStep s t → Fits s → Fits t
MainStep-Fits {s = s} (MainStep.take_result r rs drains takes e) inv = rw e (record {
  chunks = inv.chunks;
  results = let full = inv.results in let same = ap length takes in omega (arith, full, same);
  quiet = inv.quiet;
  errs = inv.errs;
  pending = inv.pending;
  first = inv.first;
})
MainStep-Fits {s = s} (MainStep.see_results_closed drains takes shut e) inv = rw e (record {
  chunks = inv.chunks;
  results = inv.results;
  quiet = inv.quiet;
  errs = inv.errs;
  pending = inv.pending;
  first = inv.first;
})
MainStep-Fits {s = s} (MainStep.take_error msg es drains takes e) inv = rw e (record {
  chunks = inv.chunks;
  results = inv.results;
  quiet = λ a. cc (inv.quiet a);
  errs = let few = inv.errs in let same = ap length takes in omega (arith, few, same);
  pending = inv.pending;
  first = inv.first;
})
MainStep-Fits {s = s} (MainStep.see_errs_closed drains takes shut e) inv = rw e (record {
  chunks = inv.chunks;
  results = inv.results;
  quiet = inv.quiet;
  errs = inv.errs;
  pending = inv.pending;
  first = inv.first;
})

Steps-Fits :
    {C R : Type 0} {serve : C → R} {n : ℕ} {s t : State C R} → Steps serve n s t → Fits s → Fits t
Steps-Fits here inv = inv
Steps-Fits (next run (Step.by_reader st)) inv = ReaderStep-Fits st (Steps-Fits run inv)
Steps-Fits (next run (Step.by_sender st)) inv = SenderStep-Fits st (Steps-Fits run inv)
Steps-Fits (next run (Step.by_receiver st)) inv = ReceiverStep-Fits st (Steps-Fits run inv)
Steps-Fits (next run (Step.by_main st)) inv = MainStep-Fits st (Steps-Fits run inv)
Steps-Fits (next run (Step.hang_up stays e)) inv =
    let before = Steps-Fits run inv in
    rw e (record {
      chunks = before.chunks;
      results = before.results;
      quiet = before.quiet;
      errs = before.errs;
      pending = before.pending;
      first = before.first;
    })

-- In every run of a streamed request at most 10 chunks wait in `chunks`, at most 100 results in `results` and at
-- most one error in `errs`, and none in `sendErr` until the sender returns: the channels of errors, of one place each, never make a goroutine wait.
pub channels-bound :
    {C R : Type 0} (serve : C → R) (all : List C) (n : ℕ) (t : State C R)
    → Steps serve n (start all) t
    → (length t.chunks ≤ 10)
      × (length t.results ≤ 100)
      × (length t.errs ≤ 1)
      × (t.sender ≢ gone → t.send_err ≡ none)
channels-bound serve all n t run =
    let fits = Steps-Fits run (record {
      chunks = omega arith;
      results = omega arith;
      quiet = λ a. refl;
      errs = omega arith;
      pending = λ a. refl;
      first = λ a. refl;
    }) in
    (fits.chunks, fits.results, fits.errs, λ stays. fits.pending (not_gone t.sender stays))
  where
    not_gone : (d : Sender) → d ≢ gone → is_gone d ≡ false
    not_gone not_started n = refl
    not_gone forwarding n = refl
    not_gone closing n = refl
    not_gone gone n = absurd (n refl)
