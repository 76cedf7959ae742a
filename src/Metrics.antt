-- ===== src/Metrics.antt =====
-- gateway/internal/metrics/metrics.go: the calls that the gateway makes of its Prometheus metrics, as
-- a log, and the rate limiter. A time is a number of nanoseconds.
pub mod Limiter
pub mod Registry
use vkr.Prelude.{ℕ, List, [], ◌∷◌, ◌++◌, if◌then◌else◌}
use vkr.Prelude.Int.{ℤ, pos, ltb_ℤ}
use vkr.Prelude.Text.{Text}

-- One call on one metric, with its label.
pub data Update : Type 0 where
  requests_total errors_total : Text → Update
  frames_processed : Update
  request_payload_bytes : Text → ℤ → Update
  request_latency : Text → ℕ → Update
  active_connections processor_pool_size : ℤ → Update

-- The newest update stands last.
abbrev pub Metrics : Type 0
Metrics = List Update

abbrev pub increment_requests : Text → Metrics → Metrics
increment_requests endpoint m = m ++ requests_total endpoint ∷ []

abbrev pub increment_errors : Text → Metrics → Metrics
increment_errors error_type m = m ++ errors_total error_type ∷ []

abbrev pub increment_processed_frames : Metrics → Metrics
increment_processed_frames m = m ++ frames_processed ∷ []

-- `if n <= 0 { return }`
abbrev pub add_request_payload_bytes : Text → ℤ → Metrics → Metrics
add_request_payload_bytes endpoint n m =
    if ltb_ℤ (pos 0) n then m ++ request_payload_bytes endpoint n ∷ [] else m

abbrev pub record_latency : Text → ℕ → Metrics → Metrics
record_latency endpoint duration m = m ++ request_latency endpoint duration ∷ []

abbrev pub set_active_connections : ℤ → Metrics → Metrics
set_active_connections count m = m ++ active_connections count ∷ []

abbrev pub set_processor_pool_size : ℤ → Metrics → Metrics
set_processor_pool_size size m = m ++ processor_pool_size size ∷ []
