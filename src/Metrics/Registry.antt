-- ===== src/Metrics/Registry.antt =====
-- The metrics that `NewMetrics` of gateway/internal/metrics/metrics.go makes and registers, and which
-- of them each call is made on.
pub mod Accepted
use vkr.Prelude.{ℕ, List, [], ◌∷◌}
use vkr.Prelude.Text.{Text, str}
use vkr.Metrics.{Update}

-- `Counter` and `CounterVec`, `Gauge`, and `Histogram` and `HistogramVec` with the upper bounds of the
-- buckets, in microseconds, or with the first bound, the factor and the number of `ExponentialBuckets`.
pub data Kind : Type 0 where
  counter gauge : Kind
  histogram : List ℕ → Kind
  exponential : (start factor count : ℕ) → Kind

-- A metric without labels has no label names.
pub record Collector : Type 0 where
  pub kind : Kind
  pub name : Text
  pub help : Text
  pub labels : List Text

-- The fields of `Metrics`.
pub record Collectors : Type 0 where
  pub requests_total : Collector
  pub errors_total : Collector
  pub frames_processed : Collector
  pub request_payload_bytes : Collector
  pub request_latency : Collector
  pub active_connections : Collector
  pub processor_pool_size : Collector

abbrev pub new_metrics : Collectors
new_metrics = record {
  requests_total = record {
    kind = counter;
    name = str "gateway_requests_total";
    help = str "Total number of requests by endpoint";
    labels = str "endpoint" ∷ [];
  };
  errors_total = record {
    kind = counter;
    name = str "gateway_errors_total";
    help = str "Total number of errors by type";
    labels = str "type" ∷ [];
  };
  frames_processed = record {
    kind = counter;
    name = str "gateway_frames_processed_total";
    help = str "Total number of frames processed";
    labels = [];
  };
  request_payload_bytes = record {
    kind = counter;
    name = str "gateway_request_payload_bytes_total";
    help = str "Total decoded RGB payload bytes sent to the processor (by ingress)";
    labels = str "endpoint" ∷ [];
  };
  request_latency = record {
    kind = histogram (
        1000 ∷ 5000 ∷ 10000 ∷ 25000 ∷ 50000 ∷ 100000 ∷ 250000 ∷ 500000 ∷ 1000000 ∷ 2500000 ∷ 5000000
        ∷ 10000000 ∷ []);
    name = str "gateway_request_latency_seconds";
    help = str "Request latency by endpoint";
    labels = str "endpoint" ∷ [];
  };
  active_connections = record {
    kind = gauge;
    name = str "gateway_active_connections";
    help = str "Number of active WebSocket connections";
    labels = [];
  };
  processor_pool_size = record {
    kind = gauge;
    name = str "gateway_processor_pool_size";
    help = str "Number of processors in the pool";
    labels = [];
  };
}

-- The arguments of `MustRegister`.
unfoldable pub registered : Collectors → List Collector
registered m =
    m.requests_total ∷ m.errors_total ∷ m.frames_processed ∷ m.request_payload_bytes
    ∷ m.request_latency ∷ m.active_connections ∷ m.processor_pool_size ∷ []

-- The field that a call is made on.
unfoldable pub target : Collectors → Update → Collector
target m (Update.requests_total endpoint) = m.requests_total
target m (Update.errors_total error_type) = m.errors_total
target m Update.frames_processed = m.frames_processed
target m (Update.request_payload_bytes endpoint n) = m.request_payload_bytes
target m (Update.request_latency endpoint duration) = m.request_latency
target m (Update.active_connections n) = m.active_connections
target m (Update.processor_pool_size n) = m.processor_pool_size

-- The arguments of `WithLabelValues`.
unfoldable pub label_values : Update → List Text
label_values (Update.requests_total endpoint) = endpoint ∷ []
label_values (Update.errors_total error_type) = error_type ∷ []
label_values Update.frames_processed = []
label_values (Update.request_payload_bytes endpoint n) = endpoint ∷ []
label_values (Update.request_latency endpoint duration) = endpoint ∷ []
label_values (Update.active_connections n) = []
label_values (Update.processor_pool_size n) = []
