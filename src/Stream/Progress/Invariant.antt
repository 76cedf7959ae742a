-- ===== src/Stream/Progress/Invariant.antt =====
-- What the goroutines of a streamed request (gateway/internal/http/handlers.go and
-- gateway/internal/grpc/client.go) owe each other between their steps.
use vkr.Prelude.{◌≡◌, refl, Bool, true, false, Option, none, some, List}
use vkr.Prelude.Text.{Text}
use vkr.Stream.{
  Reader, sending, finished, gave_up, Sender, not_started, forwarding, closing, gone, Receiver,
  opening, receiving, awaiting, closing_errs, closing_results, ended, holding, Main, draining,
  by_results, by_nil, by_error, State, start,
}

abbrev pub is_sending : {C : Type 0} → Reader C → Bool
is_sending (sending cs) = true
is_sending finished = false
is_sending gave_up = false

abbrev pub is_draining : Main → Bool
is_draining draining = true
is_draining by_results = false
is_draining by_nil = false
is_draining (by_error e) = false

-- The receiver is in its loop.
abbrev pub is_waiting : {R : Type 0} → Receiver R → Bool
is_waiting receiving = true
is_waiting (holding r) = true
is_waiting opening = false
is_waiting awaiting = false
is_waiting closing_errs = false
is_waiting closing_results = false
is_waiting ended = false

-- It has not taken the sender's error.
abbrev pub is_open : {R : Type 0} → Receiver R → Bool
is_open receiving = true
is_open (holding r) = true
is_open awaiting = true
is_open opening = false
is_open closing_errs = false
is_open closing_results = false
is_open ended = false

abbrev pub is_active : Sender → Bool
is_active not_started = true
is_active forwarding = true
is_active closing = false
is_active gone = false

abbrev pub has_started : Sender → Bool
has_started not_started = false
has_started forwarding = true
has_started closing = true
has_started gone = true

abbrev pub is_failure : Option (Option Text) → Bool
is_failure none = false
is_failure (some none) = false
is_failure (some (some e)) = true

abbrev pub is_answer : Option (Option Text) → Bool
is_answer none = false
is_answer (some e) = true

pub record Live {C R : Type 0} (s : State C R) : Type 0 where
  pub stops : is_sending s.reader ≡ false → s.chunks_closed ≡ true
  pub ends : is_draining s.main ≡ false → s.cancelled ≡ true
  pub closes : s.receiver ≡ ended → s.results_closed ≡ true
  pub begun : is_waiting s.receiver ≡ true → has_started s.sender ≡ true
  pub failed :
      is_waiting s.receiver ≡ true
      → s.sender ≡ gone
      → s.half_closed ≡ false
      → is_failure s.send_err ≡ true
  pub active : is_active s.sender ≡ true → s.half_closed ≡ false
  pub owed : is_open s.receiver ≡ true → s.sender ≡ gone → is_answer s.send_err ≡ true
  pub waits : s.receiver ≡ awaiting → s.half_closed ≡ true
  pub half : s.sender ≡ closing → s.half_closed ≡ true
  pub first : s.receiver ≡ opening → s.sender ≡ not_started

pub start-Live : {C R : Type 0} (all : List C) → Live (start {C = C} {R = R} all)
start-Live all = record {
  stops = λ a. cc;
  ends = λ a. cc;
  closes = λ a. cc;
  begun = λ a. cc;
  failed = λ a. cc;
  active = λ a. refl;
  owed = λ a. cc;
  waits = λ a. cc;
  half = λ a. cc;
  first = λ a. refl;
}
