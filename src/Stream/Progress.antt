-- ===== src/Stream/Progress.antt =====
-- The goroutines of a streamed request (gateway/internal/http/handlers.go and
-- gateway/internal/grpc/client.go) come to an end.
mod Invariant
mod Kept
mod Measure
mod Enabled
use vkr.Prelude.{
  ℕ, zero, suc, ◌+◌, ◌*◌, ◌≤◌, ◌<◌, ◌≡◌, ◌≢◌, refl, ap, sym, ◌∙◌, not, ◌⊎◌, inl, inr, Bool, true,
  false, Option, none, some, List, [], ◌∷◌, ◌++◌, map, arith, length, length-append,
}
use vkr.Prelude.Text.{Text}
use vkr.Stream.{
  Reader, sending, finished, gave_up, Sender, not_started, forwarding, closing, gone, Receiver,
  opening, receiving, awaiting, closing_errs, closing_results, ended, holding, Main, draining,
  by_results, by_nil, by_error, State, start, report, ReaderStep, SenderStep, ReceiverStep,
  MainStep, Step, Steps, here, next,
}
use vkr.Stream.Progress.Invariant.{Live, start-Live}
use vkr.Stream.Progress.Kept.{Step-Live}
use vkr.Stream.Progress.Measure.{left, Step-left, Steps-left}
use vkr.Stream.Progress.Enabled.{is_fault, IsOver, CanStep, progress}

-- However the goroutines of a streamed request are interleaved, whatever fails and whenever the client
-- leaves, together they take at most five steps for each frame of the body and thirteen more.
pub steps-bound :
    {C R : Type 0} (serve : C → R) (all : List C) (n : ℕ) (t : State C R)
    → Steps serve n (start all) t
    → n ≤ 5 * length all + 13
steps-bound serve all n t run = omega (arith, Steps-left run)

Steps-Live :
    {C R : Type 0} {serve : C → R} {n : ℕ} {s t : State C R} → Steps serve n s t → Live s → Live t
Steps-Live here inv = inv
Steps-Live (next r st) inv = Step-Live st (Steps-Live r inv)

-- A run in which nothing outside fails.
pub data Clean {C R : Type 0} (serve : C → R) : State C R → State C R → Type 0 where
  stop : {s : State C R} → Clean serve s s
  then :
      {s t u : State C R} (st : Step serve s t)
      → is_fault st ≡ false
      → Clean serve t u
      → Clean serve s u

abbrev pub CanEnd : {C R : Type 0} → (C → R) → State C R → Type 0
CanEnd {C} {R} serve s = (t : State C R) × Clean serve s t × IsOver t

Live-CanEnd :
    {C R : Type 0} (serve : C → R) (fuel : ℕ) (s : State C R)
    → Live s
    → left s ≤ fuel
    → CanEnd serve s
Live-CanEnd serve zero s inv enough = elim (progress serve s s.sender inv refl) [
  | inl (t, st, ok) ↦ absurd (omega (arith, Step-left st))
  | inr over ↦ (s, stop, over)
]
Live-CanEnd serve (suc fuel) s inv enough = elim (progress serve s s.sender inv refl) [
  | inl (t, st, ok) ↦
      let (u, run, over) =
        Live-CanEnd serve fuel t (Step-Live st inv) (omega (arith, Step-left st)) in
      (u, then st ok run, over)
  | inr over ↦ (s, stop, over)
]

-- From every state that a streamed request comes to, however it came to it and whatever failed
-- before, the reader, the sender, the receiver and the loop can all return, in steps of their own in
-- which nothing more fails: no goroutine waits for ever on a channel.
pub can_end :
    {C R : Type 0} (serve : C → R) (all : List C) (n : ℕ) (t : State C R)
    → Steps serve n (start all) t
    → CanEnd serve t
can_end serve all n t run =
    Live-CanEnd serve (left t) t (Steps-Live run (start-Live all)) (omega arith)
