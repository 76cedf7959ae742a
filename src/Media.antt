-- ===== src/Media.antt =====
-- The messages of proto/streaming.proto, as gateway/proto/streaming.pb.go and its copy under
-- processor-go declare them. Floats are of an arbitrary type; a pointer that may be nil is an Option.
use vkr.Prelude.{Bool, Option}
use vkr.Prelude.Int.{ℤ}
use vkr.Prelude.Text.{Text}

-- Another number on the wire is kept as it is.
pub data MediaType : Type 0 where
  unspecified video audio image : MediaType
  unknown : ℤ → MediaType

pub data FilterType : Type 0 where
  unspecified gaussian_blur sharpen edge_detect grayscale : FilterType
  unknown : ℤ → FilterType

pub record ProcessingParams (F32 : Type 0) : Type 0 where
  pub filter : FilterType
  pub blur_radius : F32
  pub intensity : F32

-- `width` and `height` are int32, `sequence_id` and `timestamp_ns` int64.
pub record MediaChunk (F32 : Type 0) : Type 0 where
  pub bytes : Text
  pub type : MediaType
  pub width : ℤ
  pub height : ℤ
  pub codec : Text
  pub sequence_id : ℤ
  pub timestamp_ns : ℤ
  pub params : Option (ProcessingParams F32)

pub record MemoryMetrics : Type 0 where
  pub arena_allocated_bytes : ℤ
  pub arena_used_bytes : ℤ
  pub total_allocations : ℤ
  pub heap_used_bytes : ℤ

pub record ProcessedChunk : Type 0 where
  pub bytes : Text
  pub success : Bool
  pub processing_time_ns : ℤ
  pub sequence_id : ℤ
  pub error_message : Text
  pub memory_metrics : Option MemoryMetrics

pub record StatsResponse (F64 : Type 0) : Type 0 where
  pub total_frames_processed : ℤ
  pub total_processing_time_ns : ℤ
  pub avg_processing_time_ms : F64
  pub current_arena_size_bytes : ℤ
  pub peak_arena_size_bytes : ℤ
  pub total_arena_allocations : ℤ
  pub total_arena_resets : ℤ
  pub frames_per_second : F64
