-- ===== src/Stream/Order/Sending.antt =====
-- The invariant under the steps of the goroutine that sends the chunks of a streamed request.

use vkr.Prelude.{refl, ap, sym, List, ◌++◌, map}
use vkr.Stream.{State}
use vkr.Stream.{SenderStep}
use vkr.Stream.Order.Invariant.{is_active, map-move, Holds, now_half}

module _ {C R : Type 0} (serve : C → R) (all : List C) where
  pub SenderStep-Holds : {s t : State C R} → SenderStep s t → Holds serve all s → Holds serve all t
  SenderStep-Holds {s} (SenderStep.send c cs sends chunks e) (rest, later, beyond, inv) = rw e (
    rest,
    map serve cs ++ beyond,
    beyond,
    record {
      total = inv.total;
      flight = λ a.
          rw (inv.flight a, inv.queued a (ap is_active sends), chunks)
            (sym (map-move serve s.in_flight c (map serve cs ++ beyond)));
      queued = λ a b. refl;
      unread = inv.unread;
      read = inv.read;
      closed = λ a b d. cc (inv.active (ap is_active sends));
      waited = inv.waited;
      complete = inv.complete;
      stopped = inv.stopped;
      half = inv.half;
      active = inv.active;
      first = inv.first;
      over = inv.over;
      drained = inv.drained;
    },
  )
  SenderStep-Holds {s} (SenderStep.send_fail c cs msg sends chunks e) (rest, later, beyond, inv) =
      rw e (
        rest,
        later,
        beyond,
        record {
          total = inv.total;
          flight = inv.flight;
          queued = λ a b. cc;
          unread = inv.unread;
          read = inv.read;
          closed = inv.closed;
          waited = inv.waited;
          complete = inv.complete;
          stopped = inv.stopped;
          half = inv.half;
          active = λ a. cc;
          first = λ a. cc (inv.first a);
          over = inv.over;
          drained = inv.drained;
        },
      )
  SenderStep-Holds {s} (SenderStep.close_send sends chunks shut e) (rest, later, beyond, inv) =
      rw e (
        rest,
        later,
        beyond,
        record {
          total = inv.total;
          flight = inv.flight;
          queued = λ a b. cc;
          unread = inv.unread;
          read = inv.read;
          closed = λ a b d. rw (inv.queued a (ap is_active sends), chunks, inv.read d) refl;
          waited = λ a. (refl, (inv.waited a).1);
          complete = λ a. now_half (inv.complete a);
          stopped = inv.stopped;
          half = λ a. shut;
          active = λ a. cc;
          first = λ a. cc (inv.first a);
          over = inv.over;
          drained = inv.drained;
        },
      )
  SenderStep-Holds {s} (SenderStep.send_done sends e) (rest, later, beyond, inv) = rw e (
    rest,
    later,
    beyond,
    record {
      total = inv.total;
      flight = inv.flight;
      queued = λ a b. cc;
      unread = inv.unread;
      read = inv.read;
      closed = inv.closed;
      waited = inv.waited;
      complete = inv.complete;
      stopped = inv.stopped;
      half = inv.half;
      active = λ a. cc;
      first = λ a. cc (inv.first a);
      over = inv.over;
      drained = inv.drained;
    },
  )
