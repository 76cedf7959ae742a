-- ===== src/Stream/Progress/Kept.antt =====
-- The invariant under each step of the goroutines of a streamed request.
mod Receiving
use vkr.Prelude.{
  ℕ, zero, suc, ◌+◌, ◌*◌, ◌≤◌, ◌<◌, ◌≡◌, ◌≢◌, refl, ap, sym, ◌∙◌, not, ◌⊎◌, inl, inr, Bool, true,
  false, Option, none, some, List, [], ◌∷◌, ◌++◌, map, arith, length, length-append,
}
use vkr.Prelude.Text.{Text}
use vkr.Stream.{
  Reader, sending, finished, gave_up, Sender, not_started, forwarding, closing, gone, Receiver,
  opening, receiving, awaiting, closing_errs, closing_results, ended, holding, Main, draining,
  by_results, by_nil, by_error, State, start, report, ReaderStep, SenderStep, ReceiverStep,
  MainStep, Step, Steps, here, next,
}
use vkr.Stream.Progress.Kept.Receiving.{ReceiverStep-Live}
use vkr.Stream.Progress.Invariant.{
  is_sending, is_draining, is_waiting, is_open, is_active, has_started, is_failure, is_answer, Live,
  start-Live,
}

ReaderStep-Live : {C R : Type 0} {s t : State C R} → ReaderStep s t → Live s → Live t
ReaderStep-Live {s = s} (ReaderStep.read c cs reads room e) inv = rw e (record {
  stops = λ a. cc;
  ends = inv.ends;
  closes = inv.closes;
  begun = inv.begun;
  failed = inv.failed;
  active = inv.active;
  owed = inv.owed;
  waits = inv.waits;
  half = inv.half;
  first = inv.first;
})
ReaderStep-Live {s = s} (ReaderStep.read_end reads e) inv = rw e (record {
  stops = λ a. refl;
  ends = inv.ends;
  closes = inv.closes;
  begun = inv.begun;
  failed = inv.failed;
  active = inv.active;
  owed = inv.owed;
  waits = inv.waits;
  half = inv.half;
  first = inv.first;
})
ReaderStep-Live {s = s} (ReaderStep.read_cancel c cs reads stop e) inv = rw e (record {
  stops = λ a. refl;
  ends = inv.ends;
  closes = inv.closes;
  begun = inv.begun;
  failed = inv.failed;
  active = inv.active;
  owed = inv.owed;
  waits = inv.waits;
  half = inv.half;
  first = inv.first;
})

SenderStep-Live : {C R : Type 0} {s t : State C R} → SenderStep s t → Live s → Live t
SenderStep-Live {s = s} (SenderStep.send c cs sends chunks e) inv = rw e (record {
  stops = inv.stops;
  ends = inv.ends;
  closes = inv.closes;
  begun = inv.begun;
  failed = inv.failed;
  active = inv.active;
  owed = inv.owed;
  waits = inv.waits;
  half = inv.half;
  first = inv.first;
})
SenderStep-Live {s = s} (SenderStep.send_fail c cs msg sends chunks e) inv = rw e (record {
  stops = inv.stops;
  ends = inv.ends;
  closes = inv.closes;
  begun = λ a. refl;
  failed = λ a b c. refl;
  active = λ a. cc;
  owed = λ a b. refl;
  waits = inv.waits;
  half = λ a. cc;
  first = λ a. cc (inv.first a);
})
SenderStep-Live {s = s} (SenderStep.close_send sends chunks shut e) inv = rw e (record {
  stops = inv.stops;
  ends = inv.ends;
  closes = inv.closes;
  begun = λ a. refl;
  failed = λ a b. cc;
  active = λ a. cc;
  owed = λ a b. cc;
  waits = λ a. refl;
  half = λ a. refl;
  first = λ a. cc (inv.first a);
})
SenderStep-Live {s = s} (SenderStep.send_done sends e) inv = rw e (record {
  stops = inv.stops;
  ends = inv.ends;
  closes = inv.closes;
  begun = λ a. refl;
  failed = λ a b c. cc (inv.half sends);
  active = λ a. cc;
  owed = λ a b. refl;
  waits = inv.waits;
  half = λ a. cc;
  first = λ a. cc (inv.first a);
})

MainStep-Live : {C R : Type 0} {s t : State C R} → MainStep s t → Live s → Live t
MainStep-Live {s = s} (MainStep.take_result r rs drains takes e) inv = rw e (record {
  stops = inv.stops;
  ends = inv.ends;
  closes = inv.closes;
  begun = inv.begun;
  failed = inv.failed;
  active = inv.active;
  owed = inv.owed;
  waits = inv.waits;
  half = inv.half;
  first = inv.first;
})
MainStep-Live {s = s} (MainStep.see_results_closed drains takes shut e) inv = rw e (record {
  stops = inv.stops;
  ends = λ a. refl;
  closes = inv.closes;
  begun = inv.begun;
  failed = inv.failed;
  active = inv.active;
  owed = inv.owed;
  waits = inv.waits;
  half = inv.half;
  first = inv.first;
})
MainStep-Live {s = s} (MainStep.take_error msg es drains takes e) inv = rw e (record {
  stops = inv.stops;
  ends = λ a. refl;
  closes = inv.closes;
  begun = inv.begun;
  failed = inv.failed;
  active = inv.active;
  owed = inv.owed;
  waits = inv.waits;
  half = inv.half;
  first = inv.first;
})
MainStep-Live {s = s} (MainStep.see_errs_closed drains takes shut e) inv = rw e (record {
  stops = inv.stops;
  ends = λ a. refl;
  closes = inv.closes;
  begun = inv.begun;
  failed = inv.failed;
  active = inv.active;
  owed = inv.owed;
  waits = inv.waits;
  half = inv.half;
  first = inv.first;
})

pub Step-Live : {C R : Type 0} {serve : C → R} {s t : State C R} → Step serve s t → Live s → Live t
Step-Live (Step.by_reader st) inv = ReaderStep-Live st inv
Step-Live (Step.by_sender st) inv = SenderStep-Live st inv
Step-Live (Step.by_receiver st) inv = ReceiverStep-Live st inv
Step-Live (Step.by_main st) inv = MainStep-Live st inv
Step-Live (Step.hang_up stays e) inv = rw e (record {
  stops = inv.stops;
  ends = λ a. refl;
  closes = inv.closes;
  begun = inv.begun;
  failed = inv.failed;
  active = inv.active;
  owed = inv.owed;
  waits = inv.waits;
  half = inv.half;
  first = inv.first;
})
