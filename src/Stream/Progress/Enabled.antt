-- ===== src/Stream/Progress/Enabled.antt =====
-- While a goroutine of a streamed request has not ended, one of them has a step.
use vkr.Prelude.{
  ◌≡◌, refl, ap, not, ◌⊎◌, inl, inr, Bool, true, false, Option, none, some, List, [], ◌∷◌, arith,
}
use vkr.Prelude.Text.{Text}
use vkr.Stream.{
  Reader, sending, finished, gave_up, Sender, not_started, forwarding, closing, gone, Receiver,
  opening, receiving, awaiting, closing_errs, closing_results, ended, holding, Main, draining,
  State, ReaderStep, SenderStep, ReceiverStep, MainStep, Step,
}
use vkr.Stream.Progress.Invariant.{
  is_sending, is_draining, is_waiting, is_open, is_active, has_started, is_failure, is_answer, Live,
}

-- The steps in which something outside these goroutines fails: the stream is not opened, a send or a
-- receive fails on a stream that works, or the client leaves.
abbrev pub is_fault : {C R : Type 0} {serve : C → R} {s t : State C R} → Step serve s t → Bool
is_fault (Step.by_reader st) = false
is_fault (Step.by_sender (SenderStep.send_fail c cs msg sends chunks e)) = true
is_fault (Step.by_sender st) = false
is_fault (Step.by_receiver (ReceiverStep.open_fail msg opens e)) = true
is_fault {s = s} (Step.by_receiver (ReceiverStep.recv_fail msg takes e)) =
    not (is_failure s.send_err)
is_fault (Step.by_receiver st) = false
is_fault (Step.by_main st) = false
is_fault (Step.hang_up stays e) = true

-- The reader, the receiver and the loop have returned, and the sender has, if it was ever started.
abbrev pub IsOver : {C R : Type 0} → State C R → Type 0
IsOver s =
    (is_sending s.reader ≡ false)
    × (s.receiver ≡ ended)
    × (is_draining s.main ≡ false)
    × (has_started s.sender ≡ true → s.sender ≡ gone)

module _ {C R : Type 0} (serve : C → R) where
  abbrev pub CanStep : State C R → Type 0
  CanStep s = (t : State C R) × (st : Step serve s t) × (is_fault st ≡ false)

  has_started-closed :
      (d : Sender) {h : Bool} → (is_active d ≡ true → h ≡ false) → h ≡ true → has_started d ≡ true
  has_started-closed not_started active half = cc (active refl)
  has_started-closed forwarding active half = refl
  has_started-closed closing active half = refl
  has_started-closed gone active half = refl

  forwarding_step :
      (s : State C R) (r : Reader C) (cs : List C)
      → Live s
      → s.sender ≡ forwarding
      → s.reader ≡ r
      → s.chunks ≡ cs
      → CanStep s
  forwarding_step s r (c ∷ cs) inv sends reads chunks =
      (_, Step.by_sender (SenderStep.send c cs sends chunks refl), refl)
  forwarding_step s (sending []) [] inv sends reads chunks =
      (_, Step.by_reader (ReaderStep.read_end reads refl), refl)
  forwarding_step s (sending (c ∷ cs)) [] inv sends reads chunks =
      (_, Step.by_reader (ReaderStep.read c cs reads (rw chunks (omega arith)) refl), refl)
  forwarding_step s finished [] inv sends reads chunks = (
    _,
    Step.by_sender (SenderStep.close_send sends chunks (inv.stops (ap is_sending reads)) refl),
    refl,
  )
  forwarding_step s gave_up [] inv sends reads chunks = (
    _,
    Step.by_sender (SenderStep.close_send sends chunks (inv.stops (ap is_sending reads)) refl),
    refl,
  )

  answering_step :
      (s : State C R) (rs : List R)
      → Live s
      → s.main ≡ draining
      → s.receiver ≡ ended
      → s.results ≡ rs
      → CanStep s
  answering_step s (r ∷ rs) inv drains ends results =
      (_, Step.by_main (MainStep.take_result r rs drains results refl), refl)
  answering_step s [] inv drains ends results =
      (_, Step.by_main (MainStep.see_results_closed drains results (inv.closes ends) refl), refl)

  stopped_step :
      (s : State C R) (m : Main) (r : Reader C)
      → Live s
      → s.receiver ≡ ended
      → (has_started s.sender ≡ true → s.sender ≡ gone)
      → s.main ≡ m
      → s.reader ≡ r
      → CanStep s ⊎ IsOver s
  stopped_step s draining r inv ends idle main reads = inl (answering_step s _ inv main ends refl)
  stopped_step s m (sending []) inv ends idle main reads =
      inl (_, Step.by_reader (ReaderStep.read_end reads refl), refl)
  stopped_step s m (sending (c ∷ cs)) inv ends idle main reads = inl (
    _,
    Step.by_reader (ReaderStep.read_cancel c cs reads (inv.ends (ap is_draining main)) refl),
    refl,
  )
  stopped_step s m r inv ends idle main reads =
      inr (ap is_sending reads, ends, ap is_draining main, idle)

  holding_step :
      (s : State C R) (m : Main) (rs : List R) (r : R)
      → Live s
      → s.receiver ≡ holding r
      → s.main ≡ m
      → s.results ≡ rs
      → CanStep s
  holding_step s m [] r inv holds main results =
      (_, Step.by_receiver (ReceiverStep.put r holds (rw results (omega arith)) refl), refl)
  holding_step s draining (x ∷ rs) r inv holds main results =
      (_, Step.by_main (MainStep.take_result x rs main results refl), refl)
  holding_step s m (x ∷ rs) r inv holds main results = (
    _,
    Step.by_receiver (ReceiverStep.put_cancel r [] holds (inv.ends (ap is_draining main)) refl),
    refl,
  )

  receiving_step :
      (s : State C R) (cs : List C) (h : Bool)
      → Live s
      → s.receiver ≡ receiving
      → s.sender ≡ gone
      → s.in_flight ≡ cs
      → s.half_closed ≡ h
      → CanStep s
  receiving_step s (c ∷ cs) h inv takes idle flies half =
      (_, Step.by_receiver (ReceiverStep.recv c cs takes flies refl), refl)
  receiving_step s [] true inv takes idle flies half =
      (_, Step.by_receiver (ReceiverStep.recv_eof takes flies half refl), refl)
  receiving_step s [] false inv takes idle flies half = (
    _,
    Step.by_receiver (ReceiverStep.recv_fail [] takes refl),
    ap not (inv.failed (ap is_waiting takes) idle half),
  )

  awaiting_step :
      (s : State C R) (e : Option (Option Text))
      → s.receiver ≡ awaiting
      → is_answer s.send_err ≡ true
      → s.send_err ≡ e
      → CanStep s
  awaiting_step s none takes owed answers = cc
  awaiting_step s (some e) takes owed answers =
      (_, Step.by_receiver (ReceiverStep.await e takes answers refl), refl)

  idle_step :
      (s : State C R) (v : Receiver R)
      → Live s
      → (has_started s.sender ≡ true → s.sender ≡ gone)
      → s.receiver ≡ v
      → CanStep s ⊎ IsOver s
  idle_step s opening inv idle is =
      inl (_, Step.by_receiver (ReceiverStep.open_stream is refl), refl)
  idle_step s receiving inv idle is =
      inl (receiving_step s _ _ inv is (idle (inv.begun (ap is_waiting is))) refl refl)
  idle_step s (holding r) inv idle is = inl (holding_step s _ _ r inv is refl refl)
  idle_step s awaiting inv idle is = inl (
      awaiting_step s _ is
        (inv.owed (ap is_open is) (idle (has_started-closed s.sender inv.active (inv.waits is))))
        refl)
  idle_step s closing_errs inv idle is =
      inl (_, Step.by_receiver (ReceiverStep.close_errs is refl), refl)
  idle_step s closing_results inv idle is =
      inl (_, Step.by_receiver (ReceiverStep.close_results is refl), refl)
  idle_step s ended inv idle is = stopped_step s _ _ inv is idle refl refl

  pub progress : (s : State C R) (d : Sender) → Live s → s.sender ≡ d → CanStep s ⊎ IsOver s
  progress s not_started inv is = idle_step s _ inv (λ h. cc) refl
  progress s gone inv is = idle_step s _ inv (λ h. is) refl
  progress s forwarding inv is = inl (forwarding_step s _ _ inv is refl refl)
  progress s closing inv is = inl (_, Step.by_sender (SenderStep.send_done is refl), refl)
