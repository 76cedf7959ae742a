-- ===== src/Metrics/Registry/Accepted.antt =====
-- What the Prometheus library asks of the calls of gateway/internal/metrics/metrics.go, which panic
-- else: `MustRegister` refuses two metrics of one name, `WithLabelValues` another number of values than
-- of label names, and the `Add` of a counter a number below zero.
use vkr.Prelude.{ℕ, ◌≡◌, refl, some, get_elem?, true, length, map}
use vkr.Prelude.Int.{pos, ltb_ℤ}
use vkr.Prelude.Text.{str, eq_text, AreDistinct}
use vkr.Metrics.{Update}
use vkr.Metrics.Registry.{Collectors, new_metrics, registered, target, label_values}

-- A counter is not made smaller: `AddRequestPayloadBytes` adds a number above zero, and the other
-- counters are incremented.
abbrev pub IsGrowing : Update → Type 0
IsGrowing (Update.request_payload_bytes endpoint n) = ltb_ℤ (pos 0) n ≡ true
IsGrowing _ = Unit

-- The metric of a call is registered, and the call gives a value for each of its label names.
pub record IsAccepted (m : Collectors) (u : Update) : Type 0 where
  pub known : (i : ℕ) × (get_elem? (registered m) i ≡ some (target m u))
  pub labelled : length (label_values u) ≡ length (target m u).labels
  pub growing : IsGrowing u

names-AreDistinct : AreDistinct (map (λ c. c.name) (registered new_metrics))
unfolding registered str eq_text
names-AreDistinct = (
  (refl, (refl, (refl, (refl, (refl, (refl, tt)))))),
  (
    (refl, (refl, (refl, (refl, (refl, tt))))),
    (
      (refl, (refl, (refl, (refl, tt)))),
      ((refl, (refl, (refl, tt))), ((refl, (refl, tt)), ((refl, tt), (tt, tt)))),
    ),
  ),
)

pub update-IsAccepted : (u : Update) → IsGrowing u → IsAccepted new_metrics u
unfolding registered target label_values
update-IsAccepted (Update.requests_total endpoint) g = record {
  known = (0, refl);
  labelled = refl;
  growing = g;
}
update-IsAccepted (Update.errors_total error_type) g = record {
  known = (1, refl);
  labelled = refl;
  growing = g;
}
update-IsAccepted Update.frames_processed g = record {
  known = (2, refl);
  labelled = refl;
  growing = g;
}
update-IsAccepted (Update.request_payload_bytes endpoint n) g = record {
  known = (3, refl);
  labelled = refl;
  growing = g;
}
update-IsAccepted (Update.request_latency endpoint duration) g = record {
  known = (4, refl);
  labelled = refl;
  growing = g;
}
update-IsAccepted (Update.active_connections n) g = record {
  known = (5, refl);
  labelled = refl;
  growing = g;
}
update-IsAccepted (Update.processor_pool_size n) g = record {
  known = (6, refl);
  labelled = refl;
  growing = g;
}
