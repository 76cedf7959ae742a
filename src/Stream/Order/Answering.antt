-- ===== src/Stream/Order/Answering.antt =====
-- The invariant under the steps of the loop that answers of a streamed request.

use vkr.Prelude.{refl, ap, sym, ◌∙◌, inr, List, [], ◌∷◌, ◌++◌, append_assoc}
use vkr.Stream.{State}
use vkr.Stream.{MainStep}
use vkr.Stream.Order.Invariant.{held, Holds, undecided}

module _ {C R : Type 0} (serve : C → R) (all : List C) where
  pub MainStep-Holds : {s t : State C R} → MainStep s t → Holds serve all s → Holds serve all t
  MainStep-Holds {s} (MainStep.take_result r rs drains takes e) (rest, later, beyond, inv) = rw e (
    rest,
    later,
    beyond,
    record {
      total =
          ap (λ v. v ++ rest) (append_assoc s.written (r ∷ []) (rs ++ held s.receiver))
          ∙ sym (ap (λ v. (s.written ++ (v ++ held s.receiver)) ++ rest) takes)
          ∙ inv.total;
      flight = inv.flight;
      queued = inv.queued;
      unread = inv.unread;
      read = inv.read;
      closed = inv.closed;
      waited = inv.waited;
      complete = inv.complete;
      stopped = inv.stopped;
      half = inv.half;
      active = inv.active;
      first = inv.first;
      over = inv.over;
      drained = λ a. cc;
    },
  )
  MainStep-Holds {s} (MainStep.see_results_closed drains takes shut e) (rest, later, beyond, inv) =
      rw e (
        rest,
        later,
        beyond,
        record {
          total = inv.total;
          flight = inv.flight;
          queued = inv.queued;
          unread = inv.unread;
          read = inv.read;
          closed = inv.closed;
          waited = inv.waited;
          complete = λ a. undecided drains (inv.complete a);
          stopped = inv.stopped;
          half = inv.half;
          active = inv.active;
          first = inv.first;
          over = inv.over;
          drained = λ a. (takes, inv.over shut);
        },
      )
  MainStep-Holds {s} (MainStep.take_error msg es drains takes e) (rest, later, beyond, inv) = rw e (
    rest,
    later,
    beyond,
    record {
      total = inv.total;
      flight = inv.flight;
      queued = inv.queued;
      unread = inv.unread;
      read = inv.read;
      closed = inv.closed;
      waited = inv.waited;
      complete = λ a. inr (inr refl);
      stopped = inv.stopped;
      half = inv.half;
      active = inv.active;
      first = inv.first;
      over = inv.over;
      drained = λ a. cc;
    },
  )
  MainStep-Holds {s} (MainStep.see_errs_closed drains takes shut e) (rest, later, beyond, inv) =
      rw e (
        rest,
        later,
        beyond,
        record {
          total = inv.total;
          flight = inv.flight;
          queued = inv.queued;
          unread = inv.unread;
          read = inv.read;
          closed = inv.closed;
          waited = inv.waited;
          complete = λ a. undecided drains (inv.complete a);
          stopped = inv.stopped;
          half = inv.half;
          active = inv.active;
          first = inv.first;
          over = inv.over;
          drained = λ a. cc;
        },
      )
