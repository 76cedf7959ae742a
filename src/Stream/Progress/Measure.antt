-- ===== src/Stream/Progress/Measure.antt =====
-- A measure that every step of the goroutines of a streamed request decreases.
use vkr.Prelude.{ℕ, ◌+◌, ◌*◌, ◌≤◌, ◌<◌, Bool, true, false, [], ◌∷◌, arith, length, length-append}
use vkr.Stream.{
  Reader, sending, finished, gave_up, Sender, not_started, forwarding, closing, gone, Receiver,
  opening, receiving, awaiting, closing_errs, closing_results, ended, holding, Main, draining,
  by_results, by_nil, by_error, State, ReaderStep, SenderStep, ReceiverStep, MainStep, Step, Steps,
  here, next,
}

abbrev unread : {C : Type 0} → Reader C → ℕ
unread (sending cs) = 5 * length cs + 1
unread finished = 0
unread gave_up = 0

abbrev sender_left : Sender → ℕ
sender_left not_started = 3
sender_left forwarding = 2
sender_left closing = 1
sender_left gone = 0

abbrev receiver_left : {R : Type 0} → Receiver R → ℕ
receiver_left opening = 7
receiver_left (holding r) = 6
receiver_left receiving = 4
receiver_left awaiting = 3
receiver_left closing_errs = 2
receiver_left closing_results = 1
receiver_left ended = 0

abbrev main_left : Main → ℕ
main_left draining = 1
main_left by_results = 0
main_left by_nil = 0
main_left (by_error e) = 0

abbrev to_cancel : Bool → ℕ
to_cancel false = 1
to_cancel true = 0

-- A frame weighs less at each place it comes to: 5 in the body, 4 in `chunks`, 3 in flight, 2 in the
-- receiver and 1 in `results`.
abbrev pub left : {C R : Type 0} → State C R → ℕ
left s =
    unread s.reader
    + 4 * length s.chunks
    + sender_left s.sender
    + 3 * length s.in_flight
    + receiver_left s.receiver
    + length s.results
    + main_left s.main
    + to_cancel s.cancelled

ReaderStep-left : {C R : Type 0} {s t : State C R} → ReaderStep s t → left t < left s
ReaderStep-left {s = s} (ReaderStep.read c cs reads room e) =
    rw (e, reads) (omega (arith, length-append s.chunks (c ∷ [])))
ReaderStep-left {s = s} (ReaderStep.read_end reads e) = rw (e, reads) (omega (arith))
ReaderStep-left {s = s} (ReaderStep.read_cancel c cs reads stop e) = rw (e, reads) (omega (arith))

SenderStep-left : {C R : Type 0} {s t : State C R} → SenderStep s t → left t < left s
SenderStep-left {s = s} (SenderStep.send c cs sends chunks e) =
    rw (e, sends, chunks) (omega (arith, length-append s.in_flight (c ∷ [])))
SenderStep-left {s = s} (SenderStep.send_fail c cs msg sends chunks e) =
    rw (e, sends, chunks) (omega (arith))
SenderStep-left {s = s} (SenderStep.close_send sends chunks shut e) = rw (e, sends) (omega (arith))
SenderStep-left {s = s} (SenderStep.send_done sends e) = rw (e, sends) (omega (arith))

ReceiverStep-left :
    {C R : Type 0} {serve : C → R} {s t : State C R} → ReceiverStep serve s t → left t < left s
ReceiverStep-left {s = s} (ReceiverStep.open_stream opens e) = rw (e, opens) (omega (arith))
ReceiverStep-left {s = s} (ReceiverStep.open_fail msg opens e) = rw (e, opens) (omega (arith))
ReceiverStep-left {s = s} (ReceiverStep.recv c cs takes flies e) =
    rw (e, takes, flies) (omega (arith))
ReceiverStep-left {s = s} (ReceiverStep.recv_eof takes flies shut e) = rw (e, takes) (omega (arith))
ReceiverStep-left {s = s} (ReceiverStep.recv_fail msg takes e) = rw (e, takes) (omega (arith))
ReceiverStep-left {s = s} (ReceiverStep.put r holds room e) =
    rw (e, holds) (omega (arith, length-append s.results (r ∷ [])))
ReceiverStep-left {s = s} (ReceiverStep.put_cancel r msg holds stop e) =
    rw (e, holds) (omega (arith))
ReceiverStep-left {s = s} (ReceiverStep.await msg takes answers e) = rw (e, takes) (omega (arith))
ReceiverStep-left {s = s} (ReceiverStep.close_errs leaves e) = rw (e, leaves) (omega (arith))
ReceiverStep-left {s = s} (ReceiverStep.close_results leaves e) = rw (e, leaves) (omega (arith))

MainStep-left : {C R : Type 0} {s t : State C R} → MainStep s t → left t < left s
MainStep-left {s = s} (MainStep.take_result r rs drains takes e) =
    rw (e, drains, takes) (omega (arith))
MainStep-left {s = s} (MainStep.see_results_closed drains takes shut e) =
    rw (e, drains) (omega (arith))
MainStep-left {s = s} (MainStep.take_error msg es drains takes e) = rw (e, drains) (omega (arith))
MainStep-left {s = s} (MainStep.see_errs_closed drains takes shut e) =
    rw (e, drains) (omega (arith))

pub Step-left : {C R : Type 0} {serve : C → R} {s t : State C R} → Step serve s t → left t < left s
Step-left (Step.by_reader st) = ReaderStep-left st
Step-left (Step.by_sender st) = SenderStep-left st
Step-left (Step.by_receiver st) = ReceiverStep-left st
Step-left (Step.by_main st) = MainStep-left st
Step-left (Step.hang_up stays e) = rw (e, stays) (omega arith)

pub Steps-left :
    {C R : Type 0} {serve : C → R} {n : ℕ} {s t : State C R}
    → Steps serve n s t
    → n + left t ≤ left s
Steps-left here = omega arith
Steps-left (next r st) = omega (arith, Steps-left r, Step-left st)
