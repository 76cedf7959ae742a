-- ===== src/Processor/Tests.antt =====
-- The processor over whole numbers in place of floats, and its theorems at concrete inputs.
use vkr.Prelude.{
  ℕ, ◌+◌, ◌*◌, ◌/◌, ◌%◌, ◌≡◌, ◌++◌, refl, none, some, List, [], ◌∷◌, arith, length, ltb, replicate,
}
use vkr.Prelude.Int.{pos, pos_part}
use vkr.Prelude.Text.{Text, str}
use vkr.Media.{MediaType, FilterType, MediaChunk}
use vkr.Processor.{Floats}
use vkr.Processor.Loops.{Gives}
use vkr.Processor.Blur.{gaussian_blur}
use vkr.Processor.Blur.Exact.{IsBlurred, gaussian_blur-IsBlurred}
use vkr.Processor.Filters.{sharpen, edge_detect}
use vkr.Processor.Picture.{IsPicture}
use vkr.Processor.Filters.Sharp.{sharpened, sharpen-IsPicture}
use vkr.Processor.Filters.Edge.{edge, edge_detect-IsPicture}
use vkr.Processor.Server.{
  Server, Outcome, Round, Turn, Received, process_chunk, process_media_stream,
}
use vkr.Prelude.{◌<◌, ◌≢◌, get_elem?}
use vkr.Processor.Report.{MemStats, Report, runtime_report}
use vkr.Processor.Report.Pauses.{runtime_report-last_pause}
use vkr.Processor.Report.Balance.{IsBalanced, process_media_stream-IsBalanced}
use vkr.Processor.Report.Races.{
  PoolCounters, idle, CounterStep, CounterSteps, stay, step, both_loaded, counters_differ,
  report-exceeds,
}
use vkr.Processor.Server.Laws.{IsAnswer, process_chunk-IsAnswer}
use vkr.Processor.Server.Stream.{delivered, IsServed, process_media_stream-IsServed}

abbrev pub whole : Floats
whole = record {
  F32 = ℕ;
  F64 = ℕ;
  lit = λ n d. n / d;
  of_byte = λ b. b;
  of_int = pos_part;
  add = λ a b. a + b;
  mul = λ a b. a * b;
  div = λ a b. a / b;
  neg = λ a. 0;
  lt = ltb;
  to_byte = λ a. a % 256;
  widen = λ a. a;
  narrow = λ a. a;
  of_int64 = pos_part;
  mul64 = λ a b. a * b;
  div64 = λ a b. a / b;
  lt64 = ltb;
  ceil = λ a. a;
  exp = λ a. 1;
  sqrt = λ a. a;
  to_int = pos;
}

-- Two pixels.
abbrev frame : Text
frame = 1 ∷ 2 ∷ 3 ∷ 4 ∷ 5 ∷ 6 ∷ []

abbrev buffer : List ℕ
buffer = replicate 31 0

-- Nine pixels, of which one is not on the border.
abbrev square : Text
square = 1 ∷ 2 ∷ 3 ∷ 4 ∷ 5 ∷ 6 ∷ 7 ∷ 8 ∷ 9 ∷ (frame ++ (frame ++ frame))

sharpen-IsPicture_example :
    Gives
      (λ out. (length out ≡ 27) × IsPicture 3 3 (sharpened whole square 3 1) out)
      (sharpen whole square (pos 3) (pos 3) 1)
sharpen-IsPicture_example = sharpen-IsPicture whole square 3 3 1 refl

edge_detect-IsPicture_example :
    Gives
      (λ out. (length out ≡ 27) × IsPicture 3 3 (edge whole square 3) out)
      (edge_detect whole square (pos 3) (pos 3))
edge_detect-IsPicture_example = edge_detect-IsPicture whole square 3 3 refl (omega arith)

gaussian_blur-IsBlurred_example :
    Gives (IsBlurred whole frame 2 1 5 buffer) (gaussian_blur whole frame (pos 2) (pos 1) 5 buffer)
gaussian_blur-IsBlurred_example =
    gaussian_blur-IsBlurred whole frame 2 1 5 buffer refl (omega arith) refl

abbrev pub round : Round whole
round = record { kernel = buffer; elapsed_ns = pos 7; heap_alloc = 1; heap_sys = 2; mallocs = 3 }

abbrev chunk : MediaType → MediaChunk ℕ
chunk type = record {
  bytes = frame;
  type = type;
  width = pos 2;
  height = pos 1;
  codec = str "raw";
  sequence_id = pos 9;
  timestamp_ns = pos 0;
  params = some (record { filter = FilterType.grayscale; blur_radius = 0; intensity = 0 });
}

abbrev pub fresh : Server
fresh = record {
  global_stats = record {
    total_frames = pos 0;
    total_time_ns = pos 0;
    total_allocs = pos 0;
    total_pool_gets = pos 0;
    total_pool_puts = pos 0;
    start_time = 0;
  };
  frames_processed = 0;
  processing_times = [];
  pool_gets = 0;
  pool_puts = 0;
  heap_alloc = 0;
  lent_kernels = 0;
}

process_chunk-IsAnswer_example :
    Gives
      (IsAnswer whole 2 1 (chunk MediaType.image) fresh)
      (process_chunk whole round (chunk MediaType.image) fresh)
process_chunk-IsAnswer_example =
    process_chunk-IsAnswer whole round (chunk MediaType.image) fresh 2 1 refl refl (omega arith)
      (omega arith) (omega arith) refl

abbrev calls : List (MediaChunk ℕ × Round whole)
calls = (chunk MediaType.image, round) ∷ (chunk MediaType.audio, round) ∷ []

abbrev last_turn : Turn whole
last_turn = record { received = Received.eof; round = round; send_error = none }

process_media_stream-IsServed_example : IsServed whole calls fresh (
    process_media_stream whole
      (delivered whole (chunk MediaType.image, round)
        ∷ delivered whole (chunk MediaType.audio, round)
        ∷ last_turn
        ∷ [])
      fresh)
process_media_stream-IsServed_example =
    process_media_stream-IsServed whole calls last_turn fresh
      (
        (2, 1, refl, refl, omega arith, omega arith, omega arith, refl),
        ((2, 1, refl, refl, omega arith, omega arith, omega arith, refl), tt),
      )
      refl

abbrev memory : MemStats ℕ
memory = record {
  heap_alloc = 1;
  heap_sys = 2;
  heap_idle = 0;
  heap_inuse = 1;
  heap_objects = 1;
  stack_inuse = 1;
  total_alloc = 1;
  num_gc = 257;
  pause_total_ns = 0;
  pause_ns = replicate 256 9;
  next_gc = 4;
  gc_cpu_fraction = 0;
}

runtime_report-last_pause_example :
    Gives
      (λ (r : Report ℕ). 0 < 257 → get_elem? (replicate 256 9) 0 ≡ some r.last_pause_ns)
      (runtime_report whole memory 5 (pos 0) 10 fresh.global_stats)
runtime_report-last_pause_example =
    runtime_report-last_pause whole memory 5 (pos 0) 10 fresh.global_stats (omega arith) refl

abbrev two_turns : List (Turn whole)
two_turns =
    delivered whole (chunk MediaType.image, round)
    ∷ delivered whole (chunk MediaType.audio, round)
    ∷ last_turn
    ∷ []

two_turns-IsServed : IsServed whole calls fresh (process_media_stream whole two_turns fresh)
two_turns-IsServed =
    process_media_stream-IsServed whole calls last_turn fresh
      (
        (2, 1, refl, refl, omega arith, omega arith, omega arith, refl),
        ((2, 1, refl, refl, omega arith, omega arith, omega arith, refl), tt),
      )
      refl

process_media_stream-IsBalanced_example :
    let last = (process_media_stream whole two_turns fresh).1 in
    IsBalanced last × (last.lent_kernels ≡ 0) × (last.pool_gets ≡ 0) × (last.pool_puts ≡ 0)
process_media_stream-IsBalanced_example =
    process_media_stream-IsBalanced whole two_turns fresh refl (λ e.
      not_panicked (process_media_stream whole two_turns fresh).2 two_turns-IsServed.returned e)
  where
    not_panicked : (o : Outcome whole) → o ≡ Outcome.returned none → o ≢ Outcome.panicked
    not_panicked o r e = cc

-- One call has taken a kernel.
abbrev one_running : PoolCounters
one_running = record idle { total_pool_gets = pos 1; running = 1 }

counters_differ_example :
    (given : ℕ) × (one_running.total_pool_puts ≡ pos given)
    × (one_running.total_pool_gets ≡ pos (given + one_running.running))
unfolding vkr.Prelude.Int.wrap vkr.Prelude.Int.◌+ℤ◌
counters_differ_example =
    counters_differ 1 one_running (omega arith) (step stay (CounterStep.take_kernel refl))

report-exceeds_example :
    (n : ℕ) × (t : PoolCounters) × CounterSteps idle n t
    × (t.loads ≡ both_loaded (pos 1) (pos (4 + 1)))
report-exceeds_example = report-exceeds 4 (omega arith)
