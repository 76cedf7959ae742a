-- ===== src/Stream/Progress/Kept/Receiving.antt =====
-- The invariant under the steps of the goroutine that takes the results from the stream.
use vkr.Prelude.{refl, ap}
use vkr.Stream.{State, ReceiverStep}
use vkr.Stream.Progress.Invariant.{is_waiting, is_open, is_active, Live}

pub ReceiverStep-Live :
    {C R : Type 0} {serve : C → R} {s t : State C R} → ReceiverStep serve s t → Live s → Live t
ReceiverStep-Live {s = s} (ReceiverStep.open_stream opens e) inv = rw e (record {
  stops = inv.stops;
  ends = inv.ends;
  closes = λ a. cc;
  begun = λ a. refl;
  failed = λ a b. cc;
  active = λ a. inv.active (ap is_active (inv.first opens));
  owed = λ a b. cc;
  waits = λ a. cc;
  half = λ a. cc;
  first = λ a. cc;
})
ReceiverStep-Live {s = s} (ReceiverStep.open_fail msg opens e) inv = rw e (record {
  stops = inv.stops;
  ends = inv.ends;
  closes = λ a. cc;
  begun = λ a. cc;
  failed = λ a. cc;
  active = inv.active;
  owed = λ a. cc;
  waits = λ a. cc;
  half = inv.half;
  first = λ a. cc;
})
ReceiverStep-Live {s = s} (ReceiverStep.recv c cs takes flies e) inv = rw e (record {
  stops = inv.stops;
  ends = inv.ends;
  closes = λ a. cc;
  begun = λ a. inv.begun (ap is_waiting takes);
  failed = λ a. inv.failed (ap is_waiting takes);
  active = inv.active;
  owed = λ a. inv.owed (ap is_open takes);
  waits = λ a. cc;
  half = inv.half;
  first = λ a. cc;
})
ReceiverStep-Live {s = s} (ReceiverStep.recv_eof takes flies shut e) inv = rw e (record {
  stops = inv.stops;
  ends = inv.ends;
  closes = λ a. cc;
  begun = λ a. cc;
  failed = λ a. cc;
  active = inv.active;
  owed = λ a. inv.owed (ap is_open takes);
  waits = λ a. shut;
  half = inv.half;
  first = λ a. cc;
})
ReceiverStep-Live {s = s} (ReceiverStep.recv_fail msg takes e) inv = rw e (record {
  stops = inv.stops;
  ends = inv.ends;
  closes = λ a. cc;
  begun = λ a. cc;
  failed = λ a. cc;
  active = inv.active;
  owed = λ a. cc;
  waits = λ a. cc;
  half = inv.half;
  first = λ a. cc;
})
ReceiverStep-Live {s = s} (ReceiverStep.put r holds room e) inv = rw e (record {
  stops = inv.stops;
  ends = inv.ends;
  closes = λ a. cc;
  begun = λ a. inv.begun (ap is_waiting holds);
  failed = λ a. inv.failed (ap is_waiting holds);
  active = inv.active;
  owed = λ a. inv.owed (ap is_open holds);
  waits = λ a. cc;
  half = inv.half;
  first = λ a. cc;
})
ReceiverStep-Live {s = s} (ReceiverStep.put_cancel r msg holds stop e) inv = rw e (record {
  stops = inv.stops;
  ends = inv.ends;
  closes = λ a. cc;
  begun = λ a. cc;
  failed = λ a. cc;
  active = inv.active;
  owed = λ a. cc;
  waits = λ a. cc;
  half = inv.half;
  first = λ a. cc;
})
ReceiverStep-Live {s = s} (ReceiverStep.await msg takes answers e) inv = rw e (record {
  stops = inv.stops;
  ends = inv.ends;
  closes = λ a. cc;
  begun = λ a. cc;
  failed = λ a. cc;
  active = inv.active;
  owed = λ a. cc;
  waits = λ a. cc;
  half = inv.half;
  first = λ a. cc;
})
ReceiverStep-Live {s = s} (ReceiverStep.close_errs leaves e) inv = rw e (record {
  stops = inv.stops;
  ends = inv.ends;
  closes = λ a. cc;
  begun = λ a. cc;
  failed = λ a. cc;
  active = inv.active;
  owed = λ a. cc;
  waits = λ a. cc;
  half = inv.half;
  first = λ a. cc;
})
ReceiverStep-Live {s = s} (ReceiverStep.close_results leaves e) inv = rw e (record {
  stops = inv.stops;
  ends = inv.ends;
  closes = λ a. refl;
  begun = λ a. cc;
  failed = λ a. cc;
  active = inv.active;
  owed = λ a. cc;
  waits = λ a. cc;
  half = inv.half;
  first = λ a. cc;
})
