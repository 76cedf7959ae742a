-- ===== src/Processor/Server.antt =====
-- processor-go/cmd/server/main.go: the gRPC server, its counters and its media stream. `none` is a
-- panic, which ends the process.
pub mod Laws
pub mod Stream
pub mod Pixels
use vkr.Prelude.{
  ℕ, ◌+◌, ◌-◌, ◌^◌, Bool, true, false, Option, none, some, List, [], ◌∷◌, ◌++◌, ◌||◌, ◌==◌, length,
  if◌then◌else◌, ◌>>=◌,
}
use vkr.Prelude.Int.{ℤ, pos, negsuc, ltb_ℤ, sub_ℕ, ◌+ℤ◌, ◌*ℤ◌, int64}
use vkr.Prelude.Text.{Text, str}
use vkr.Go.Decimal.{format_int}
use vkr.Media.{MediaType, FilterType, ProcessingParams, MediaChunk, ProcessedChunk, StatsResponse}
use vkr.Processor.{Floats}
use vkr.Processor.Blur.{gaussian_blur}
use vkr.Processor.Filters.{grayscale, sharpen, edge_detect}

-- The int64 counters, and the time at which the process started.
pub record GlobalStats : Type 0 where
  pub total_frames : ℤ
  pub total_time_ns : ℤ
  pub total_allocs : ℤ
  pub total_pool_gets : ℤ
  pub total_pool_puts : ℤ
  pub start_time : ℕ

-- The counters, and the Prometheus metrics: the counters of frames and of the kernel pool, what the
-- histogram has observed, and the gauge of the heap; and the pool of kernels.
pub record Server : Type 0 where
  pub global_stats : GlobalStats
  pub frames_processed : ℕ
  pub processing_times : List ℤ
  pub pool_gets : ℕ
  pub pool_puts : ℕ
  pub heap_alloc : ℕ
  -- How many kernel buffers were taken from `kernelPool` and not put back.
  pub lent_kernels : ℕ

-- The goroutine that reads the runtime's memory once a second.
unfoldable pub refresh_heap : ℕ → Server → Server
refresh_heap alloc s = record s { heap_alloc = alloc }

-- `atomic.AddInt64`
abbrev pub add_int64 : ℤ → ℤ → ℤ
add_int64 n delta = int64 (n +ℤ delta)

-- `kernelPool.Get()`; what buffer it gives is an argument of the call.
abbrev get_kernel : Server → Server
get_kernel s = record s { lent_kernels = s.lent_kernels + 1 }

-- `kernelPool.Put(kernelPtr)`
abbrev put_kernel : Server → Server
put_kernel s = record s { lent_kernels = s.lent_kernels - 1 }

abbrev count_get : Server → Server
count_get s = record s {
  global_stats = record s.global_stats {
    total_pool_gets = add_int64 s.global_stats.total_pool_gets (pos 1);
  };
}

abbrev count_put : Server → Server
count_put s = record s {
  global_stats = record s.global_stats {
    total_pool_puts = add_int64 s.global_stats.total_pool_puts (pos 1);
  };
}

-- `len(data) != expectedSize`
abbrev pub has_size : Text → ℤ → Bool
has_size bytes (pos n) = length bytes == n
has_size bytes (negsuc n) = false

abbrev pub is_supported : MediaType → Bool
is_supported MediaType.video = true
is_supported MediaType.image = true
is_supported MediaType.audio = false
is_supported MediaType.unspecified = false
is_supported (MediaType.unknown n) = false

abbrev pub refused : ℤ → Text → ProcessedChunk
refused id message = record {
  bytes = [];
  success = false;
  processing_time_ns = pos 0;
  sequence_id = id;
  error_message = message;
  memory_metrics = none;
}

module _ (f : Floats) where
  open f use {F32, F64, lit, lt, of_int64, div64, lt64, mul64}

  -- What the run of one call meets: the kernel buffer that the pool gives, the time the filter
  -- takes, and the runtime's memory counters.
  pub record Round : Type 0 where
    pub kernel : List F32
    pub elapsed_ns : ℤ
    pub heap_alloc : ℕ
    pub heap_sys : ℕ
    pub mallocs : ℕ

  -- The filter, the blur radius and the intensity of a chunk.
  unfoldable pub settings : Option (ProcessingParams F32) → FilterType × F32 × F32
  settings none = (FilterType.gaussian_blur, lit 5 1, lit 1 1)
  settings (some p) = (
    p.filter,
    (if lt (lit 0 1) p.blur_radius then p.blur_radius else lit 5 1),
    (if lt (lit 0 1) p.intensity then p.intensity else lit 1 1),
  )

  -- `GaussianBlur` with the pool and its counters.
  unfoldable pub blur : Round → Text → ℤ → ℤ → F32 → Server → Option (Text × Server)
  blur round input width height radius s = do
    out ← gaussian_blur f input width height radius round.kernel
    some (out.0, count_put (put_kernel (count_get (get_kernel s))))

  abbrev kept : Server → Option Text → Option (Text × Server)
  kept s out = do output ← out; some (output, s)

  unfoldable pub apply_filter :
      Round → FilterType → Text → ℤ → ℤ → F32 → F32 → Server → Option (Text × Server)
  apply_filter round FilterType.gaussian_blur input w h radius intensity s =
      blur round input w h radius s
  apply_filter round FilterType.grayscale input w h radius intensity s =
      kept s (grayscale f input w h)
  apply_filter round FilterType.sharpen input w h radius intensity s =
      kept s (sharpen f input w h intensity)
  apply_filter round FilterType.edge_detect input w h radius intensity s =
      kept s (edge_detect f input w h)
  apply_filter round FilterType.unspecified input w h radius intensity s =
      blur round input w h radius s
  apply_filter round (FilterType.unknown n) input w h radius intensity s =
      blur round input w h radius s

  -- A processed frame and its counts.
  unfoldable pub processed : Round → ℤ → Text × Server → ProcessedChunk × Server
  processed round id (output, s) = (
    record {
      bytes = output;
      success = true;
      processing_time_ns = round.elapsed_ns;
      sequence_id = id;
      error_message = [];
      memory_metrics = some (record {
        arena_allocated_bytes = pos 0;
        arena_used_bytes = pos 0;
        total_allocations = int64 (pos round.mallocs);
        heap_used_bytes = int64 (pos round.heap_alloc);
      });
    },
    record s {
      global_stats = record s.global_stats {
        total_frames = add_int64 s.global_stats.total_frames (pos 1);
        total_time_ns = add_int64 s.global_stats.total_time_ns round.elapsed_ns;
        total_allocs = add_int64 s.global_stats.total_allocs (pos 1);
      };
      frames_processed = s.frames_processed + 1;
      processing_times = s.processing_times ++ round.elapsed_ns ∷ [];
    },
  )

  unfoldable pub process_chunk : Round → MediaChunk F32 → Server → Option (ProcessedChunk × Server)
  process_chunk round chunk s =
      let expected = int64 (int64 (chunk.width *ℤ chunk.height) *ℤ pos 3) in
      let (filter, radius, intensity) = settings chunk.params in
      if is_supported chunk.type
      then if has_size chunk.bytes expected
        then apply_filter round filter chunk.bytes chunk.width chunk.height radius intensity s
          >>= (λ out. some (processed round chunk.sequence_id out))
        else some (
          refused chunk.sequence_id (
              str "Invalid data size: expected "
              ++ format_int expected
              ++ str ", got "
              ++ format_int (pos (length chunk.bytes))),
          s,
        )
      else some (refused chunk.sequence_id (str "Unsupported media type"), s)

  -- `GetStats` at the time `now`, in nanoseconds; `elapsed` is in seconds.
  unfoldable pub get_stats : Round → ℕ → (ℤ → F64) → Server → StatsResponse F64
  get_stats round now seconds s =
      let g = s.global_stats in
      let elapsed = seconds (sub_ℕ now g.start_time) in
      record {
        total_frames_processed = g.total_frames;
        total_processing_time_ns = g.total_time_ns;
        avg_processing_time_ms =
            if ltb_ℤ (pos 0) g.total_frames
            then div64 (div64 (of_int64 g.total_time_ns) (of_int64 g.total_frames))
                (of_int64 (pos 1000000))
            else of_int64 (pos 0);
        current_arena_size_bytes = int64 (pos round.heap_alloc);
        peak_arena_size_bytes = int64 (pos round.heap_sys);
        total_arena_allocations = g.total_allocs;
        total_arena_resets = g.total_pool_puts;
        frames_per_second =
            if lt64 (of_int64 (pos 0)) elapsed
            then div64 (of_int64 g.total_frames) elapsed
            else of_int64 (pos 0);
      }

  -- What `stream.Recv` returns.
  pub data Received : Type 0 where
    chunk : MediaChunk F32 → Received
    eof : Received
    failed : Text → Received

  -- One turn of the stream's loop: what it receives, the call's run, and the error of `stream.Send`.
  pub record Turn : Type 0 where
    pub received : Received
    pub round : Round
    pub send_error : Option Text

  -- How far the loop is: it waits for the next message, or it has returned, with an error or not, or
  -- the process is gone.
  pub data Outcome : Type 0 where
    waiting panicked : Outcome
    returned : Option Text → Outcome

  -- The results that were sent, the server then, and the outcome.
  abbrev pub Served : Type 0
  Served = List ProcessedChunk × Server × Outcome

  abbrev pub sent_first : ProcessedChunk → Served → Served
  sent_first result (sent, s, outcome) = (result ∷ sent, s, outcome)

  unfoldable pub process_media_stream : List Turn → Server → Served
  process_media_stream [] s = ([], s, Outcome.waiting)
  process_media_stream (turn ∷ turns) s = elim turn.received [
    | chunk c ↦ answer turn (process_chunk turn.round c s) (process_media_stream turns)
    | eof ↦ ([], s, Outcome.returned none)
    | failed e ↦ ([], s, Outcome.returned (some e))
  ]
    where
      answer : Turn → Option (ProcessedChunk × Server) → (Server → Served) → Served
      answer turn none next = ([], s, Outcome.panicked)
      answer turn (some (result, s')) next = elim turn.send_error [
        | none ↦ sent_first result (next s')
        | some e ↦ ([], s', Outcome.returned (some e))
      ]
