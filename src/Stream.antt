-- ===== src/Stream.antt =====
-- The goroutines of one streamed request: the reader and the loop of `HandleProcessStream` in
-- gateway/internal/http/handlers.go, and the receiver and the sender of `ProcessStream` in
-- gateway/internal/grpc/client.go, interleaved in any order. Chunks and results are of any types; a
-- chunk that was sent is answered in its turn, with the result that `serve` gives.
pub mod Order
pub mod Progress
pub mod Loss
pub mod Buffers
pub mod Answers
pub mod Tests
use vkr.Prelude.{
  ℕ, suc, ◌<◌, ◌≡◌, Bool, true, false, Option, none, some, List, [], ◌∷◌, ◌++◌, length,
}
use vkr.Prelude.Text.{Text, str}

-- `make(chan *pb.MediaChunk, 10)` and `make(chan *pb.ProcessedChunk, 100)`
abbrev pub chunks_capacity : ℕ
chunks_capacity = 10

abbrev pub results_capacity : ℕ
results_capacity = 100

-- The reader has frames left to send, or has closed `chunks`: after the last, or because the request
-- was cancelled.
pub data Reader (C : Type 0) : Type 0 where
  sending : List C → Reader C
  finished gave_up : Reader C

-- The sender waits for the stream, forwards the chunks, has called `CloseSend`, or has returned.
pub data Sender : Type 0 where
  not_started forwarding closing gone : Sender

-- The receiver opens the stream, waits in `Recv`, holds a result for the select, waits for the
-- sender's error, or runs its two deferred calls.
pub data Receiver (R : Type 0) : Type 0 where
  opening receiving awaiting closing_errs closing_results ended : Receiver R
  holding : R → Receiver R

-- The loop that answers runs, or has returned: since `results` was closed, with the nil of the closed
-- `errs`, or with an error.
pub data Main : Type 0 where
  draining by_results by_nil : Main
  by_error : Text → Main

-- `in_flight` holds the chunks that were sent and not answered, `half_closed` says that `CloseSend`
-- was called, and `written` holds the results that were written to the client.
pub record State (C R : Type 0) : Type 0 where
  pub reader : Reader C
  pub chunks : List C
  pub chunks_closed : Bool
  pub sender : Sender
  pub send_err : Option (Option Text)
  pub in_flight : List C
  pub half_closed : Bool
  pub receiver : Receiver R
  pub results : List R
  pub results_closed : Bool
  pub errs : List Text
  pub errs_closed : Bool
  pub main : Main
  pub cancelled : Bool
  pub written : List R

-- The start of a request whose body holds the chunks `cs`.
abbrev pub start : {C R : Type 0} → List C → State C R
start cs = record {
  reader = sending cs;
  chunks = [];
  chunks_closed = false;
  sender = not_started;
  send_err = none;
  in_flight = [];
  half_closed = false;
  receiver = opening;
  results = [];
  results_closed = false;
  errs = [];
  errs_closed = false;
  main = draining;
  cancelled = false;
  written = [];
}

-- `if err := <-sendErr; err != nil { errs <- err }`
abbrev pub report : Option Text → List Text → List Text
report none errs = errs
report (some e) errs = errs ++ e ∷ []

-- The goroutine that reads the body.
pub data ReaderStep {C R : Type 0} (s t : State C R) : Type 0 where
  read :
      (c : C) (cs : List C)
      → s.reader ≡ sending (c ∷ cs)
      → length s.chunks < chunks_capacity
      → t ≡ record s { reader = sending cs; chunks = s.chunks ++ c ∷ [] }
      → ReaderStep s t
  read_end :
      s.reader ≡ sending []
      → t ≡ record s { reader = finished; chunks_closed = true }
      → ReaderStep s t
  read_cancel :
      (c : C) (cs : List C)
      → s.reader ≡ sending (c ∷ cs)
      → s.cancelled ≡ true
      → t ≡ record s { reader = gave_up; chunks_closed = true }
      → ReaderStep s t

-- The goroutine that sends the chunks on the stream.
pub data SenderStep {C R : Type 0} (s t : State C R) : Type 0 where
  send :
      (c : C) (cs : List C)
      → s.sender ≡ forwarding
      → s.chunks ≡ c ∷ cs
      → t ≡ record s { chunks = cs; in_flight = s.in_flight ++ c ∷ [] }
      → SenderStep s t
  send_fail :
      (c : C) (cs : List C) (e : Text)
      → s.sender ≡ forwarding
      → s.chunks ≡ c ∷ cs
      → t ≡ record s { chunks = cs; sender = gone; send_err = some (some e) }
      → SenderStep s t
  close_send :
      s.sender ≡ forwarding
      → s.chunks ≡ []
      → s.chunks_closed ≡ true
      → t ≡ record s { sender = closing; half_closed = true }
      → SenderStep s t
  send_done :
      s.sender ≡ closing → t ≡ record s { sender = gone; send_err = some none } → SenderStep s t

-- The goroutine that `ProcessStream` starts first.
pub data ReceiverStep {C R : Type 0} (serve : C → R) (s t : State C R) : Type 0 where
  open_stream :
      s.receiver ≡ opening
      → t ≡ record s { receiver = receiving; sender = forwarding }
      → ReceiverStep serve s t
  open_fail :
      (e : Text)
      → s.receiver ≡ opening
      → t ≡ record s { receiver = closing_errs; errs = s.errs ++ e ∷ [] }
      → ReceiverStep serve s t
  recv :
      (c : C) (cs : List C)
      → s.receiver ≡ receiving
      → s.in_flight ≡ c ∷ cs
      → t ≡ record s { receiver = holding (serve c); in_flight = cs }
      → ReceiverStep serve s t
  recv_eof :
      s.receiver ≡ receiving
      → s.in_flight ≡ []
      → s.half_closed ≡ true
      → t ≡ record s { receiver = awaiting }
      → ReceiverStep serve s t
  recv_fail :
      (e : Text)
      → s.receiver ≡ receiving
      → t ≡ record s { receiver = closing_errs; errs = s.errs ++ e ∷ [] }
      → ReceiverStep serve s t
  put :
      (r : R)
      → s.receiver ≡ holding r
      → length s.results < results_capacity
      → t ≡ record s { receiver = receiving; results = s.results ++ r ∷ [] }
      → ReceiverStep serve s t
  put_cancel :
      (r : R) (e : Text)
      → s.receiver ≡ holding r
      → s.cancelled ≡ true
      → t ≡ record s { receiver = closing_errs; errs = s.errs ++ e ∷ [] }
      → ReceiverStep serve s t
  await :
      (e : Option Text)
      → s.receiver ≡ awaiting
      → s.send_err ≡ some e
      → t ≡ record s { receiver = closing_errs; send_err = none; errs = report e s.errs }
      → ReceiverStep serve s t
  close_errs :
      s.receiver ≡ closing_errs
      → t ≡ record s { receiver = closing_results; errs_closed = true }
      → ReceiverStep serve s t
  close_results :
      s.receiver ≡ closing_results
      → t ≡ record s { receiver = ended; results_closed = true }
      → ReceiverStep serve s t

-- The loop that answers.
pub data MainStep {C R : Type 0} (s t : State C R) : Type 0 where
  take_result :
      (r : R) (rs : List R)
      → s.main ≡ draining
      → s.results ≡ r ∷ rs
      → t ≡ record s { results = rs; written = s.written ++ r ∷ [] }
      → MainStep s t
  see_results_closed :
      s.main ≡ draining
      → s.results ≡ []
      → s.results_closed ≡ true
      → t ≡ record s { main = by_results; cancelled = true }
      → MainStep s t
  take_error :
      (e : Text) (es : List Text)
      → s.main ≡ draining
      → s.errs ≡ e ∷ es
      → t ≡ record s { main = by_error e; errs = es; cancelled = true }
      → MainStep s t
  see_errs_closed :
      s.main ≡ draining
      → s.errs ≡ []
      → s.errs_closed ≡ true
      → t ≡ record s { main = by_nil; cancelled = true }
      → MainStep s t

-- A step of one of them, or the client that leaves.
pub data Step {C R : Type 0} (serve : C → R) (s t : State C R) : Type 0 where
  by_reader : ReaderStep s t → Step serve s t
  by_sender : SenderStep s t → Step serve s t
  by_receiver : ReceiverStep serve s t → Step serve s t
  by_main : MainStep s t → Step serve s t
  hang_up : s.cancelled ≡ false → t ≡ record s { cancelled = true } → Step serve s t

-- `n` steps one after the other.
pub data Steps {C R : Type 0} (serve : C → R) : ℕ → State C R → State C R → Type 0 where
  here : {s : State C R} → Steps serve 0 s s
  next : {n : ℕ} {s t u : State C R} → Steps serve n s t → Step serve t u → Steps serve (suc n) s u
