-- ===== src/Http/Runtime.antt =====
-- gateway/internal/http/handlers.go: `HandleRuntime`, the report on a processor's memory, which asks for
-- no user. The report holds the numbers that the answer prints; the others it prints are constant.
use vkr.Prelude.{
  ℕ, ◌%◌, ◌≡◌, false, ◌&&◌, none, some, ◌++◌, if◌then◌else◌, arith, Bool-cases, inl, inr,
}
use vkr.Prelude.Int.{ℤ, pos, ltb_ℤ, pos_part, ◌*ℤ◌, int64}
use vkr.Prelude.Text.{str}
use vkr.Prelude.Result.{ok, err}
use vkr.Media.{StatsResponse}
use vkr.Pool.{get}
use vkr.Pool.Client.{get_stats}
use vkr.Http.{Response, panic, http_error, Env, World}
use vkr.Http.Frame.{no_processors}

pub record RuntimeReport (F64 : Type 0) : Type 0 where
  pub uptime_seconds : F64
  pub arena_bytes : ℤ
  pub peak_arena_bytes : ℤ
  pub total_allocations : ℤ
  pub total_resets : ℤ
  pub efficiency_percent : F64
  pub total_frames : ℤ
  pub fps : F64
  pub avg_latency_ms : F64
  pub total_time_ns : ℤ

-- 8 * 1024 * 1024
abbrev pub arena_size : ℕ
arena_size = 8388608

-- Above the arena's size, the remainder.
abbrev within_arena : ℤ → ℤ
within_arena n = if ltb_ℤ (pos arena_size) n then pos (pos_part n % arena_size) else n

-- The bytes that so many frames of 640 x 480 would take, in an arena that is reset when it is full.
unfoldable pub estimated_arena_used : ℤ → ℤ
estimated_arena_used frames = within_arena (int64 (frames *ℤ pos 921600))

-- The answer: an error, or a report.
pub data RuntimeReply (F64 : Type 0) : Type 0 where
  answered : Response F64 → RuntimeReply F64
  reported : RuntimeReport F64 → RuntimeReply F64

module _ {F32 F64 : Type 0} (env : Env F32 F64) (of_int : ℤ → F64)
    (div mul sub : F64 → F64 → F64) where
  unfoldable pub runtime_report : StatsResponse F64 → RuntimeReport F64
  runtime_report stats =
      let frames = stats.total_frames_processed in
      let time = stats.total_processing_time_ns in
      let current = stats.current_arena_size_bytes in
      let peak = stats.peak_arena_size_bytes in
      let resets = stats.total_arena_resets in
      let has_frames = ltb_ℤ (pos 0) frames in
      record {
        uptime_seconds = div (of_int time) (of_int (pos 1000000000));
        arena_bytes = if ltb_ℤ (pos 0) current then current else estimated_arena_used frames;
        peak_arena_bytes = if ltb_ℤ (pos 0) peak then peak else pos arena_size;
        total_allocations = stats.total_arena_allocations;
        total_resets = resets;
        efficiency_percent =
            if ltb_ℤ (pos 0) resets && has_frames
            then sub (of_int (pos 100))
                (mul (div (of_int resets) (of_int frames)) (of_int (pos 100)))
            else of_int (pos 100);
        total_frames = frames;
        fps = stats.frames_per_second;
        avg_latency_ms =
            if has_frames
            then div (div (of_int time) (of_int frames)) (of_int (pos 1000000))
            else of_int (pos 0);
        total_time_ns = time;
      }

  unfoldable pub handle_runtime : World env → RuntimeReply F64 × World env
  handle_runtime w = elim (get w.pool) [
    | none ↦ (answered panic, w)
    | some (err e, pool) ↦ (answered (http_error no_processors 503), record w { pool = pool })
    | some (ok client, pool) ↦ elim (get_stats env.transport client) [
      | err e ↦
          (answered (http_error (str "Failed to get stats: " ++ e) 500), record w { pool = pool })
      | ok stats ↦ (reported (runtime_report stats), record w { pool = pool })
    ]
  ]

within_arena-bound : (n : ℤ) → ltb_ℤ (pos arena_size) (within_arena n) ≡ false
within_arena-bound n = elim (Bool-cases (ltb_ℤ (pos arena_size) n)) [
  | inl above ↦ rw above (ground arith)
  | inr below ↦ rw below below
]

-- The estimate of the used bytes never exceeds the arena's 8 MiB, however many frames were processed.
pub estimated_arena_used-bound :
    (frames : ℤ) → ltb_ℤ (pos arena_size) (estimated_arena_used frames) ≡ false
unfolding estimated_arena_used
estimated_arena_used-bound frames = within_arena-bound (int64 (frames *ℤ pos 921600))
