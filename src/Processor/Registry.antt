-- ===== src/Processor/Registry.antt =====
-- processor-go/cmd/server/main.go: the Prometheus metrics of the processor and their registration.
use vkr.Prelude.{List, [], ◌∷◌}
use vkr.Prelude.Text.{str}
use vkr.Metrics.Registry.{Collector, counter, gauge, exponential}

-- The arguments of `MustRegister`.
abbrev pub processor_metrics : List Collector
processor_metrics =
    record {
      kind = counter;
      name = str "processor_go_frames_processed_total";
      help = str "Total number of frames processed";
      labels = [];
    }
    ∷ record {
      kind = exponential 100 2 15;
      name = str "processor_go_processing_time_seconds";
      help = str "Frame processing time";
      labels = [];
    }
    ∷ record {
      kind = gauge;
      name = str "processor_go_heap_alloc_bytes";
      help = str "Current heap allocation";
      labels = [];
    }
    ∷ record {
      kind = counter;
      name = str "processor_go_pool_gets_total";
      help = str "Total sync.Pool Get operations";
      labels = [];
    }
    ∷ record {
      kind = counter;
      name = str "processor_go_pool_puts_total";
      help = str "Total sync.Pool Put operations";
      labels = [];
    }
    ∷ []
