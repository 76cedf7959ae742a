-- ===== src/Processor/Report.antt =====
-- processor-go/cmd/server/main.go: the JSON report of the endpoint /runtime, as the values that it
-- writes; how floats are printed is not modelled. `none` is a panic.
pub mod Pauses
pub mod Balance
pub mod Races
use vkr.Prelude.{ℕ, ◌+◌, ◌%◌, ◌^◌, Option, some, List, if◌then◌else◌, ◌>>=◌}
use vkr.Prelude.Int.{ℤ, pos, ltb_ℤ}
use vkr.Processor.{Floats, at}
use vkr.Processor.Server.{GlobalStats}

-- What the code reads of `runtime.MemStats`: `num_gc` is a uint32, and `pause_ns` an array of 256.
pub record MemStats (F64 : Type 0) : Type 0 where
  pub heap_alloc : ℕ
  pub heap_sys : ℕ
  pub heap_idle : ℕ
  pub heap_inuse : ℕ
  pub heap_objects : ℕ
  pub stack_inuse : ℕ
  pub total_alloc : ℕ
  pub num_gc : ℕ
  pub pause_total_ns : ℕ
  pub pause_ns : List ℕ
  pub next_gc : ℕ
  pub gc_cpu_fraction : F64

pub record Report (F64 : Type 0) : Type 0 where
  pub uptime_seconds : F64
  pub goroutines : ℕ
  pub cgo_calls : ℤ
  pub memory : MemStats F64
  pub last_pause_ns : ℕ
  pub gets : ℤ
  pub puts : ℤ
  pub reuse_ratio : F64
  pub total_frames : ℤ
  pub fps : F64
  pub avg_latency_ms : F64
  pub total_time_ns : ℤ

module _ (f : Floats) where
  open f use {F64, of_int64, div64, lt64}

  -- `(m.NumGC+255)%256`
  unfoldable pub last_pause_index : ℕ → ℕ
  last_pause_index num_gc = (num_gc + 255) % 2 ^ 32 % 256

  -- `if poolGets > 0 { return float64(poolPuts) / float64(poolGets) }; return 0`
  unfoldable pub reuse : ℤ → ℤ → F64
  reuse gets puts =
      if ltb_ℤ (pos 0) gets then div64 (of_int64 puts) (of_int64 gets) else of_int64 (pos 0)

  -- `elapsed` is in seconds.
  unfoldable pub runtime_report :
      MemStats F64
      → (goroutines : ℕ) → (cgo_calls : ℤ) → (elapsed : F64) → GlobalStats
      → Option (Report F64)
  runtime_report m goroutines cgo_calls elapsed g = do
    pause ← at m.pause_ns (last_pause_index m.num_gc)
    some (record {
      uptime_seconds = elapsed;
      goroutines = goroutines;
      cgo_calls = cgo_calls;
      memory = m;
      last_pause_ns = pause;
      gets = g.total_pool_gets;
      puts = g.total_pool_puts;
      reuse_ratio = reuse g.total_pool_gets g.total_pool_puts;
      total_frames = g.total_frames;
      fps =
          if lt64 (of_int64 (pos 0)) elapsed
          then div64 (of_int64 g.total_frames) elapsed
          else of_int64 (pos 0);
      avg_latency_ms =
          if ltb_ℤ (pos 0) g.total_frames
          then div64 (div64 (of_int64 g.total_time_ns) (of_int64 g.total_frames))
              (of_int64 (pos 1000000))
          else of_int64 (pos 0);
      total_time_ns = g.total_time_ns;
    })
