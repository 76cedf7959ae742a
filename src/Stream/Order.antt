-- ===== src/Stream/Order.antt =====
-- What the client of a streamed request is sent, in every interleaving of the goroutines of
-- gateway/internal/http/handlers.go and gateway/internal/grpc/client.go.
mod Invariant
mod Reading
mod Sending
mod Receiving
mod Answering
use mathlib.Core.List.{map-append}
use vkr.Prelude.{
  ℕ, zero, suc, ◌<◌, ◌≡◌, ◌≢◌, refl, ap, sym, ◌∙◌, ◌⊎◌, inl, inr, Bool, true, false, Option, none,
  some, List, [], ◌∷◌, ◌++◌, map, append_assoc, append-nil, arith, length,
}
use vkr.Prelude.Text.{Text}
use vkr.Stream.{
  Reader, sending, finished, gave_up, Sender, not_started, forwarding, closing, gone, Receiver,
  opening, receiving, awaiting, closing_errs, closing_results, ended, holding, Main, draining,
  by_results, by_nil, by_error, State, start, report, Step, Steps, here, next,
}
use vkr.Stream.{ReaderStep, SenderStep, ReceiverStep, MainStep, Step, Steps}
use vkr.Stream.Order.Invariant.{
  is_alive, is_leaving, held, is_active, is_failed, is_empty, sending-inj, is_empty-append,
  map-move, move_held, Ended, Inv, Holds, unfinished, still_open, now_half, undecided,
}
use vkr.Stream.Order.Invariant.{start-Inv}
use vkr.Stream.Order.Reading.{ReaderStep-Holds}
use vkr.Stream.Order.Sending.{SenderStep-Holds}
use vkr.Stream.Order.Receiving.{ReceiverStep-Holds}
use vkr.Stream.Order.Answering.{MainStep-Holds}

module _ {C R : Type 0} (serve : C → R) (all : List C) where
  Step-Holds : {s t : State C R} → Step serve s t → Holds serve all s → Holds serve all t
  Step-Holds (Step.by_reader st) h = ReaderStep-Holds serve all st h
  Step-Holds (Step.by_sender st) h = SenderStep-Holds serve all st h
  Step-Holds (Step.by_receiver st) h = ReceiverStep-Holds serve all st h
  Step-Holds (Step.by_main st) h = MainStep-Holds serve all st h
  Step-Holds (Step.hang_up stays e) (rest, later, beyond, inv) = rw e (
    rest,
    later,
    beyond,
    record {
      total = inv.total;
      flight = inv.flight;
      queued = inv.queued;
      unread = inv.unread;
      read = inv.read;
      closed = inv.closed;
      waited = inv.waited;
      complete = inv.complete;
      stopped = inv.stopped;
      half = inv.half;
      active = inv.active;
      first = inv.first;
      over = inv.over;
      drained = inv.drained;
    },
  )

  Steps-Holds :
      {n : ℕ} {s t : State C R} → Steps serve n s t → Holds serve all s → Holds serve all t
  Steps-Holds here h = h
  Steps-Holds (next r st) h = Step-Holds st (Steps-Holds r h)

  start-Holds : Holds serve all (start all)
  start-Holds = (map serve all, map serve all, map serve all, start-Inv serve all)

-- Whatever the interleaving, whenever the client leaves and whichever of the calls fail, what was
-- written to the client of a streamed request is at all times the results of the first frames of its
-- body, in their order, with none left out between them and none twice.
pub written-prefix :
    {C R : Type 0} (serve : C → R) (all : List C) (n : ℕ) (t : State C R)
    → Steps serve n (start all) t
    → (rest : List R) × (t.written ++ rest ≡ map serve all)
written-prefix serve all n t run =
    let (rest, later, beyond, inv) = Steps-Holds serve all run (start-Holds serve all) in
    (
      (t.results ++ held t.receiver) ++ rest,
      sym (append_assoc t.written (t.results ++ held t.receiver) rest) ∙ inv.total,
    )

none_missing :
    {C R : Type 0} {rest : List R} {half_closed : Bool} {r : Reader C} {errs : List Text} {m : Main}
    → Ended rest half_closed r ⊎ (is_empty errs ≡ false) ⊎ (is_failed m ≡ true)
    → m ≡ by_results
    → errs ≡ []
    → r ≡ finished
    → rest ≡ []
none_missing (inl h) ends quiet read = h.1 read
none_missing (inr (inl e)) ends quiet read = cc
none_missing (inr (inr f)) ends quiet read = cc

Inv-complete :
    {C R : Type 0} (serve : C → R) (all : List C) {rest later beyond : List R} {s : State C R}
    → Inv serve all rest later beyond s
    → s.main ≡ by_results
    → s.errs ≡ []
    → s.reader ≡ finished
    → s.written ≡ map serve all
Inv-complete serve all {s = s} inv ends quiet read = cc (
  none_missing (inv.complete (ap is_leaving (inv.drained ends).1)) ends quiet read,
  (inv.drained ends).0,
  ap held (inv.drained ends).1,
  append-nil s.written,
  append-nil (s.written ++ []),
  inv.total,
)

-- When the loop that answers has returned because `results` was closed, no error waits in `errs` and
-- the reader came to the end of the body, every frame of the body was answered: what was written is
-- the result of each, in their order.
pub written_complete :
    {C R : Type 0} (serve : C → R) (all : List C) (n : ℕ) (t : State C R)
    → Steps serve n (start all) t
    → t.main ≡ by_results
    → t.errs ≡ []
    → t.reader ≡ finished
    → t.written ≡ map serve all
written_complete serve all n t run ends quiet read =
    let (rest, later, beyond, inv) = Steps-Holds serve all run (start-Holds serve all) in
    Inv-complete serve all inv ends quiet read
