-- ===== src/Stream/Order/Reading.antt =====
-- The invariant under the steps of the goroutine that reads the body of a streamed request.

use vkr.Prelude.{refl, ap, sym, List, [], ◌∷◌, map}
use vkr.Stream.{State}
use vkr.Stream.{ReaderStep}
use vkr.Stream.Order.Invariant.{sending-inj, map-move, Holds, unfinished, still_open}

module _ {C R : Type 0} (serve : C → R) (all : List C) where
  pub ReaderStep-Holds : {s t : State C R} → ReaderStep s t → Holds serve all s → Holds serve all t
  ReaderStep-Holds {s} (ReaderStep.read c cs reads room e) (rest, later, beyond, inv) = rw e (
    rest,
    later,
    map serve cs,
    record {
      total = inv.total;
      flight = inv.flight;
      queued = λ a b.
          rw (inv.queued a b, inv.unread (c ∷ cs) reads)
            (sym (map-move serve s.chunks c (map serve cs)));
      unread = λ ds d. ap (map serve) (sending-inj d);
      read = λ d. cc;
      closed = λ a b d. cc;
      waited = λ a. ((inv.waited a).0, λ d. cc);
      complete = λ a. unfinished (λ d. cc) (inv.complete a);
      stopped = λ ds d. inv.stopped (c ∷ cs) reads;
      half = inv.half;
      active = inv.active;
      first = inv.first;
      over = inv.over;
      drained = inv.drained;
    },
  )
  ReaderStep-Holds {s} (ReaderStep.read_end reads e) (rest, later, beyond, inv) = rw e (
    rest,
    later,
    beyond,
    record {
      total = inv.total;
      flight = inv.flight;
      queued = inv.queued;
      unread = λ ds d. cc;
      read = λ d. inv.unread [] reads;
      closed = λ a b d. cc (inv.half b, inv.stopped [] reads);
      waited = λ a. cc (inv.half (inv.waited a).0, inv.stopped [] reads);
      complete = λ a. still_open (λ b. cc (inv.half b, inv.stopped [] reads)) (inv.complete a);
      stopped = λ ds d. cc;
      half = λ a. refl;
      active = inv.active;
      first = inv.first;
      over = inv.over;
      drained = inv.drained;
    },
  )
  ReaderStep-Holds {s} (ReaderStep.read_cancel c cs reads stop e) (rest, later, beyond, inv) =
      rw e (
        rest,
        later,
        beyond,
        record {
          total = inv.total;
          flight = inv.flight;
          queued = inv.queued;
          unread = λ ds d. cc;
          read = λ d. cc;
          closed = λ a b d. cc;
          waited = λ a. ((inv.waited a).0, λ d. cc);
          complete = λ a. unfinished (λ d. cc) (inv.complete a);
          stopped = λ ds d. cc;
          half = λ a. refl;
          active = inv.active;
          first = inv.first;
          over = inv.over;
          drained = inv.drained;
        },
      )
