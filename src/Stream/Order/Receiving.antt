-- ===== src/Stream/Order/Receiving.antt =====
-- The invariant under the steps of the goroutine that takes the results from the stream of a streamed request.

use vkr.Prelude.{refl, ap, sym, ◌∙◌, inl, inr, List, [], ◌∷◌, ◌++◌, map, append-nil}
use vkr.Stream.{State}
use vkr.Stream.{ReceiverStep}
use vkr.Stream.Order.Invariant.{
  is_alive, is_leaving, held, is_active, is_empty-append, move_held, Holds,
}

module _ {C R : Type 0} (serve : C → R) (all : List C) where
  pub ReceiverStep-Holds :
      {s t : State C R} → ReceiverStep serve s t → Holds serve all s → Holds serve all t
  ReceiverStep-Holds {s} (ReceiverStep.open_stream opens e) (rest, later, beyond, inv) = rw e (
    rest,
    later,
    beyond,
    record {
      total = sym (ap (λ v. (s.written ++ (s.results ++ held v)) ++ rest) opens) ∙ inv.total;
      flight = λ a. inv.flight (ap is_alive opens);
      queued = λ a b. inv.queued (ap is_alive opens) (ap is_active (inv.first opens));
      unread = inv.unread;
      read = inv.read;
      closed = λ a. inv.closed (ap is_alive opens);
      waited = λ a. cc;
      complete = λ a. cc;
      stopped = inv.stopped;
      half = inv.half;
      active = λ a. inv.active (ap is_active (inv.first opens));
      first = λ a. cc;
      over = λ a. cc (inv.over a, opens);
      drained = λ a. cc ((inv.drained a).1, opens);
    },
  )
  ReceiverStep-Holds {s} (ReceiverStep.open_fail msg opens e) (rest, later, beyond, inv) = rw e (
    rest,
    later,
    beyond,
    record {
      total = sym (ap (λ v. (s.written ++ (s.results ++ held v)) ++ rest) opens) ∙ inv.total;
      flight = λ a. cc;
      queued = λ a b. cc;
      unread = inv.unread;
      read = inv.read;
      closed = λ a b c. cc;
      waited = λ a. cc;
      complete = λ a. inr (inl (is_empty-append s.errs msg));
      stopped = inv.stopped;
      half = inv.half;
      active = inv.active;
      first = λ a. cc;
      over = λ a. cc (inv.over a, opens);
      drained = λ a. cc ((inv.drained a).1, opens);
    },
  )
  ReceiverStep-Holds {s} (ReceiverStep.recv c cs takes flies e) (rest, later, beyond, inv) = rw e (
    map serve cs ++ later,
    later,
    beyond,
    record {
      total =
          move_held s.written s.results (serve c) (map serve cs ++ later)
          ∙ ap (λ v. (s.written ++ (s.results ++ [])) ++ v)
              (sym (inv.flight (ap is_alive takes) ∙ ap (λ v. map serve v ++ later) flies))
          ∙ sym (ap (λ v. (s.written ++ (s.results ++ held v)) ++ rest) takes)
          ∙ inv.total;
      flight = λ a. refl;
      queued = λ a. inv.queued (ap is_alive takes);
      unread = inv.unread;
      read = inv.read;
      closed = λ a. inv.closed (ap is_alive takes);
      waited = λ a. cc;
      complete = λ a. cc;
      stopped = inv.stopped;
      half = inv.half;
      active = inv.active;
      first = λ a. cc;
      over = λ a. cc (inv.over a, takes);
      drained = λ a. cc ((inv.drained a).1, takes);
    },
  )
  ReceiverStep-Holds {s} (ReceiverStep.recv_eof takes flies shut e) (rest, later, beyond, inv) =
      rw e (
        rest,
        later,
        beyond,
        record {
          total = sym (ap (λ v. (s.written ++ (s.results ++ held v)) ++ rest) takes) ∙ inv.total;
          flight = λ a. cc;
          queued = λ a b. cc;
          unread = inv.unread;
          read = inv.read;
          closed = λ a b c. cc;
          waited = λ a. (
            shut,
            λ d.
                rw (inv.flight (ap is_alive takes), flies, inv.closed (ap is_alive takes) shut d)
                  refl,
          );
          complete = λ a. cc;
          stopped = inv.stopped;
          half = inv.half;
          active = inv.active;
          first = λ a. cc;
          over = λ a. cc (inv.over a, takes);
          drained = λ a. cc ((inv.drained a).1, takes);
        },
      )
  ReceiverStep-Holds {s} (ReceiverStep.recv_fail msg takes e) (rest, later, beyond, inv) = rw e (
    rest,
    later,
    beyond,
    record {
      total = sym (ap (λ v. (s.written ++ (s.results ++ held v)) ++ rest) takes) ∙ inv.total;
      flight = λ a. cc;
      queued = λ a b. cc;
      unread = inv.unread;
      read = inv.read;
      closed = λ a b c. cc;
      waited = λ a. cc;
      complete = λ a. inr (inl (is_empty-append s.errs msg));
      stopped = inv.stopped;
      half = inv.half;
      active = inv.active;
      first = λ a. cc;
      over = λ a. cc (inv.over a, takes);
      drained = λ a. cc ((inv.drained a).1, takes);
    },
  )
  ReceiverStep-Holds {s} (ReceiverStep.put r holds room e) (rest, later, beyond, inv) = rw e (
    rest,
    later,
    beyond,
    record {
      total =
          ap (λ v. (s.written ++ v) ++ rest) (append-nil (s.results ++ r ∷ []))
          ∙ sym (ap (λ v. (s.written ++ (s.results ++ held v)) ++ rest) holds)
          ∙ inv.total;
      flight = λ a. inv.flight (ap is_alive holds);
      queued = λ a. inv.queued (ap is_alive holds);
      unread = inv.unread;
      read = inv.read;
      closed = λ a. inv.closed (ap is_alive holds);
      waited = λ a. cc;
      complete = λ a. cc;
      stopped = inv.stopped;
      half = inv.half;
      active = inv.active;
      first = λ a. cc;
      over = λ a. cc (inv.over a, holds);
      drained = λ a. cc ((inv.drained a).1, holds);
    },
  )
  ReceiverStep-Holds {s} (ReceiverStep.put_cancel r msg holds stop e) (rest, later, beyond, inv) =
      rw e (
        r ∷ rest,
        later,
        beyond,
        record {
          total =
              sym (move_held s.written s.results r rest)
              ∙ sym (ap (λ v. (s.written ++ (s.results ++ held v)) ++ rest) holds)
              ∙ inv.total;
          flight = λ a. cc;
          queued = λ a b. cc;
          unread = inv.unread;
          read = inv.read;
          closed = λ a b c. cc;
          waited = λ a. cc;
          complete = λ a. inr (inl (is_empty-append s.errs msg));
          stopped = inv.stopped;
          half = inv.half;
          active = inv.active;
          first = λ a. cc;
          over = λ a. cc (inv.over a, holds);
          drained = λ a. cc ((inv.drained a).1, holds);
        },
      )
  ReceiverStep-Holds {s} (ReceiverStep.await msg takes answers e) (rest, later, beyond, inv) =
      rw e (
        rest,
        later,
        beyond,
        record {
          total = sym (ap (λ v. (s.written ++ (s.results ++ held v)) ++ rest) takes) ∙ inv.total;
          flight = λ a. cc;
          queued = λ a b. cc;
          unread = inv.unread;
          read = inv.read;
          closed = λ a b c. cc;
          waited = λ a. cc;
          complete = λ a. inl (inv.waited takes);
          stopped = inv.stopped;
          half = inv.half;
          active = inv.active;
          first = λ a. cc;
          over = λ a. cc (inv.over a, takes);
          drained = λ a. cc ((inv.drained a).1, takes);
        },
      )
  ReceiverStep-Holds {s} (ReceiverStep.close_errs leaves e) (rest, later, beyond, inv) = rw e (
    rest,
    later,
    beyond,
    record {
      total = sym (ap (λ v. (s.written ++ (s.results ++ held v)) ++ rest) leaves) ∙ inv.total;
      flight = λ a. cc;
      queued = λ a b. cc;
      unread = inv.unread;
      read = inv.read;
      closed = λ a b c. cc;
      waited = λ a. cc;
      complete = λ a. inv.complete (ap is_leaving leaves);
      stopped = inv.stopped;
      half = inv.half;
      active = inv.active;
      first = λ a. cc;
      over = λ a. cc (inv.over a, leaves);
      drained = λ a. cc ((inv.drained a).1, leaves);
    },
  )
  ReceiverStep-Holds {s} (ReceiverStep.close_results leaves e) (rest, later, beyond, inv) = rw e (
    rest,
    later,
    beyond,
    record {
      total = sym (ap (λ v. (s.written ++ (s.results ++ held v)) ++ rest) leaves) ∙ inv.total;
      flight = λ a. cc;
      queued = λ a b. cc;
      unread = inv.unread;
      read = inv.read;
      closed = λ a b c. cc;
      waited = λ a. cc;
      complete = λ a. inv.complete (ap is_leaving leaves);
      stopped = inv.stopped;
      half = inv.half;
      active = inv.active;
      first = λ a. cc;
      over = λ a. refl;
      drained = λ a. cc ((inv.drained a).1, leaves);
    },
  )
