-- ===== src/Stream/Answers.antt =====
-- The goroutines of a streamed request refine the account that Http/Stream gives of the loop that
-- answers, gateway/internal/http/handlers.go: what the loop takes from its two channels is a list of
-- choices, and `drain` of the list writes what the goroutines write.
use mathlib.Core.List.{map-append}
use vkr.Prelude.{
  ℕ, ◌≡◌, ◌≢◌, refl, sym, ap, ◌∙◌, Bool, true, none, some, List, [], ◌∷◌, ◌++◌, map, append_assoc,
  append-nil,
}
use vkr.Prelude.Text.{Text}
use vkr.Media.{ProcessedChunk}
use vkr.Metrics.{Metrics, increment_processed_frames}
use vkr.Http.{Env, Handler, Input}
use vkr.Http.Stream.{Selected, result, results_closed, error, has_ended, drain}
use vkr.Stream.{
  State, draining, start, ReaderStep, SenderStep, ReceiverStep, MainStep, Step, Steps, here, next,
}
use vkr.Stream.Order.{written-prefix}

-- `w.Write(result.Data)` of each.
abbrev pub joined : List ProcessedChunk → Text
joined [] = []
joined (r ∷ rs) = r.bytes ++ joined rs

joined-append :
    (rs : List ProcessedChunk) (r : ProcessedChunk) → joined (rs ++ r ∷ []) ≡ joined rs ++ r.bytes
joined-append [] r = append-nil r.bytes
joined-append (x ∷ rs) r =
    ap (λ s. x.bytes ++ s) (joined-append rs r) ∙ sym (append_assoc x.bytes (joined rs) r.bytes)

module _ {C : Type 0} (serve : C → ProcessedChunk) where
  -- What the loop takes in a step, if it is a step of the loop.
  abbrev pub selection : {s t : State C ProcessedChunk} → Step serve s t → List Selected
  selection (Step.by_main (MainStep.take_result r rs drains takes e)) = result r ∷ []
  selection (Step.by_main (MainStep.see_results_closed drains takes shut e)) = results_closed ∷ []
  selection (Step.by_main (MainStep.take_error msg es drains takes e)) = error (some msg) ∷ []
  selection (Step.by_main (MainStep.see_errs_closed drains takes shut e)) = error none ∷ []
  selection (Step.by_reader st) = []
  selection (Step.by_sender st) = []
  selection (Step.by_receiver st) = []
  selection (Step.hang_up stays e) = []

  abbrev pub selections : {n : ℕ} {s t : State C ProcessedChunk} → Steps serve n s t → List Selected
  selections here = []
  selections (next run st) = selections run ++ selection st

ReaderStep-same :
    {C R : Type 0} {s t : State C R} → ReaderStep s t → (t.written ≡ s.written) × (t.main ≡ s.main)
ReaderStep-same (ReaderStep.read c cs reads room e) = rw e (refl, refl)
ReaderStep-same (ReaderStep.read_end reads e) = rw e (refl, refl)
ReaderStep-same (ReaderStep.read_cancel c cs reads stop e) = rw e (refl, refl)

SenderStep-same :
    {C R : Type 0} {s t : State C R} → SenderStep s t → (t.written ≡ s.written) × (t.main ≡ s.main)
SenderStep-same (SenderStep.send c cs sends chunks e) = rw e (refl, refl)
SenderStep-same (SenderStep.send_fail c cs msg sends chunks e) = rw e (refl, refl)
SenderStep-same (SenderStep.close_send sends chunks shut e) = rw e (refl, refl)
SenderStep-same (SenderStep.send_done sends e) = rw e (refl, refl)

ReceiverStep-same :
    {C R : Type 0} (serve : C → R) {s t : State C R}
    → ReceiverStep serve s t
    → (t.written ≡ s.written) × (t.main ≡ s.main)
ReceiverStep-same serve (ReceiverStep.open_stream opens e) = rw e (refl, refl)
ReceiverStep-same serve (ReceiverStep.open_fail msg opens e) = rw e (refl, refl)
ReceiverStep-same serve (ReceiverStep.recv c cs takes flies e) = rw e (refl, refl)
ReceiverStep-same serve (ReceiverStep.recv_eof takes flies shut e) = rw e (refl, refl)
ReceiverStep-same serve (ReceiverStep.recv_fail msg takes e) = rw e (refl, refl)
ReceiverStep-same serve (ReceiverStep.put r holds room e) = rw e (refl, refl)
ReceiverStep-same serve (ReceiverStep.put_cancel r msg holds stop e) = rw e (refl, refl)
ReceiverStep-same serve (ReceiverStep.await msg takes answers e) = rw e (refl, refl)
ReceiverStep-same serve (ReceiverStep.close_errs leaves e) = rw e (refl, refl)
ReceiverStep-same serve (ReceiverStep.close_results leaves e) = rw e (refl, refl)

module _ {F32 F64 : Type 0} (env : Env F32 F64) (h : Handler) (input : Input)
    (parse_float : Text → F32) (is_zero : F32 → Bool) (radius : F32) where
  abbrev drained : List Selected → Metrics → Text
  drained chosen m = (drain env h input parse_float is_zero radius chosen m).0

  -- Results and then something that is no result.
  drain-append :
      (rs : List ProcessedChunk) (ends : List Selected)
      → ((m : Metrics) → drained ends m ≡ [])
      → (m : Metrics) → drained (map result rs ++ ends) m ≡ joined rs
  unfolding drain
  drain-append [] ends quiet m = quiet m
  drain-append (r ∷ rs) ends quiet m =
      ap (λ s. r.bytes ++ s) (drain-append rs ends quiet (increment_processed_frames m))

  -- The choices so far are the results that were written, and the end of the loop, if it has ended.
  record Told {C : Type 0} (chosen : List Selected) (s : State C ProcessedChunk) : Type 0 where
    ends : List Selected
    chosen_so_far : chosen ≡ map result s.written ++ ends
    running : s.main ≡ draining → ends ≡ []
    quiet : (m : Metrics) → drained ends m ≡ []
    ended : s.main ≢ draining → has_ended ends ≡ true

  start-Told : {C : Type 0} (all : List C) → Told [] (start all)
  unfolding drain
  start-Told all = record {
    ends = [];
    chosen_so_far = refl;
    running = λ a. refl;
    quiet = λ m. refl;
    ended = λ n. absurd (n refl);
  }

  other-Told :
      {C : Type 0} (chosen : List Selected) (s t : State C ProcessedChunk)
      → (t.written ≡ s.written) × (t.main ≡ s.main)
      → Told chosen s
      → Told (chosen ++ []) t
  other-Told chosen s t (written, main) told = record {
    ends = told.ends;
    chosen_so_far =
        append-nil chosen
        ∙ told.chosen_so_far
        ∙ ap (λ ws. map result ws ++ told.ends) (sym written);
    running = λ a. told.running (sym main ∙ a);
    quiet = told.quiet;
    ended = λ n. told.ended (λ a. n (main ∙ a));
  }

  -- The loop ends.
  last-Told :
      {C : Type 0} (chosen : List Selected) (s t : State C ProcessedChunk) (x : Selected)
      → t.written ≡ s.written
      → s.main ≡ draining
      → t.main ≢ draining
      → ((m : Metrics) → drained (x ∷ []) m ≡ [])
      → has_ended (x ∷ []) ≡ true
      → Told chosen s
      → Told (chosen ++ x ∷ []) t
  last-Told chosen s t x written drains ended quiet last told = record {
    ends = x ∷ [];
    chosen_so_far =
        cc (told.chosen_so_far, told.running drains, written, append-nil (map result s.written));
    running = λ a. absurd (ended a);
    quiet = quiet;
    ended = λ n. last;
  }

  main-Told :
      {C : Type 0} (serve : C → ProcessedChunk) (chosen : List Selected)
      (s t : State C ProcessedChunk) (st : MainStep s t)
      → Told chosen s
      → Told (chosen ++ selection serve (Step.by_main st)) t
  unfolding drain has_ended
  main-Told serve chosen s t (MainStep.take_result r rs drains takes e) told = rw e (record {
    ends = [];
    chosen_so_far = cc (
      told.chosen_so_far,
      told.running drains,
      append-nil (map result s.written),
      append-nil (map result (s.written ++ r ∷ [])),
      map-append result s.written (r ∷ []),
    );
    running = λ a. refl;
    quiet = λ m. refl;
    ended = λ n. absurd (n drains);
  })
  main-Told serve chosen s t (MainStep.see_results_closed drains takes shut e) told =
      last-Told chosen s t results_closed (rw e refl) drains (rw e (λ a. cc)) (λ m. refl) refl told
  main-Told serve chosen s t (MainStep.take_error msg es drains takes e) told =
      last-Told chosen s t (error (some msg)) (rw e refl) drains (rw e (λ a. cc)) (λ m. refl) refl
        told
  main-Told serve chosen s t (MainStep.see_errs_closed drains takes shut e) told =
      last-Told chosen s t (error none) (rw e refl) drains (rw e (λ a. cc)) (λ m. refl) refl told

  Step-Told :
      {C : Type 0} (serve : C → ProcessedChunk) (chosen : List Selected)
      (s t : State C ProcessedChunk) (st : Step serve s t)
      → Told chosen s
      → Told (chosen ++ selection serve st) t
  Step-Told serve chosen s t (Step.by_reader st) told =
      other-Told chosen s t (ReaderStep-same st) told
  Step-Told serve chosen s t (Step.by_sender st) told =
      other-Told chosen s t (SenderStep-same st) told
  Step-Told serve chosen s t (Step.by_receiver st) told =
      other-Told chosen s t (ReceiverStep-same serve st) told
  Step-Told serve chosen s t (Step.by_main st) told = main-Told serve chosen s t st told
  Step-Told serve chosen s t (Step.hang_up stays e) told =
      other-Told chosen s t (rw e (refl, refl)) told

  Steps-Told :
      {C : Type 0} (serve : C → ProcessedChunk) {n : ℕ} {s t : State C ProcessedChunk}
      (run : Steps serve n s t)
      → Told [] s
      → Told (selections serve run) t
  Steps-Told serve here told = told
  Steps-Told serve (next {s = s} {t = t} {u = u} run st) told =
      Step-Told serve (selections serve run) t u st (Steps-Told serve run told)

  has_ended-append :
      (rs : List ProcessedChunk) (ends : List Selected)
      → has_ended ends ≡ true
      → has_ended (map result rs ++ ends) ≡ true
  unfolding has_ended
  has_ended-append [] ends e = e
  has_ended-append (r ∷ rs) ends e = has_ended-append rs ends e

  -- The loop of a run that ended took an end from a channel.
  pub selections-has_ended :
      {C : Type 0} (serve : C → ProcessedChunk) (all : List C) (n : ℕ) (t : State C ProcessedChunk)
      (run : Steps serve n (start all) t)
      → t.main ≢ draining
      → has_ended (selections serve run) ≡ true
  selections-has_ended serve all n t run stopped =
      let told = Steps-Told serve run (start-Told all) in
      ap has_ended told.chosen_so_far ∙ has_ended-append t.written told.ends (told.ended stopped)

  -- The goroutines refine `drain`: in every run of a streamed request, however they are interleaved and
  -- whatever fails, `drain` of what the loop took from its channels, in its order, gives the bytes that
  -- were written to the client, and these are of the results of the first frames of the body, in their
  -- order.
  pub drain-selections :
      {C : Type 0} (serve : C → ProcessedChunk) (all : List C) (n : ℕ) (t : State C ProcessedChunk)
      (run : Steps serve n (start all) t) (m : Metrics)
      → ((drain env h input parse_float is_zero radius (selections serve run) m).0
          ≡ joined t.written)
        × ((rest : List ProcessedChunk) × (t.written ++ rest ≡ map serve all))
  drain-selections serve all n t run m =
      let told = Steps-Told serve run (start-Told all) in
      (
        ap (λ l. drained l m) told.chosen_so_far ∙ drain-append t.written told.ends told.quiet m,
        written-prefix serve all n t run,
      )
