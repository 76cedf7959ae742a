-- ===== src/Metrics/Limiter/Tests.antt =====
-- Runs of the limiter of metrics.go, and its theorems at concrete inputs.
use vkr.Prelude.{
  ℕ, ◌+◌, ◌/◌, ◌^◌, ◌≤◌, ◌<◌, ◌≡◌, ◌↔◌, ◌⊎◌, refl, Bool, false, true, ◌||◌, List, [], ◌∷◌, arith,
  ltb,
}
use vkr.Prelude.Int.{pos, negsuc}
use vkr.Prelude.Text.{str}
use vkr.Metrics.Limiter.{
  RateLimiter, every, crashes, started, panics, new_ticker, new_rate_limiter, refill, allow,
  middleware, is_exempt, Event, tick, request, run, ticks,
}
use vkr.Metrics.Limiter.Bounds.{run_bound}

limiter : Unit {0}
unfolding new_rate_limiter new_ticker refill allow middleware run is_exempt str
    vkr.Go.Strings.cut_prefix vkr.Prelude.Text.eq_text
limiter = tt

starts :
    (new_rate_limiter (pos 0) ≡ started (record { tokens = 0; capacity = 0 }) crashes)
    × (new_rate_limiter (pos 1000)
        ≡ started (record { tokens = 1000; capacity = 1000 }) (every 1000000))
    × (new_rate_limiter (negsuc 4) ≡ panics)
unfolding limiter
starts = (refl, refl, refl)

abbrev single : RateLimiter
single = record { tokens = 1; capacity = 1 }

abbrev burst : List Event
burst =
    request (str "/ws")
    ∷ request (str "/ws")
    ∷ request (str "/health")
    ∷ tick
    ∷ tick
    ∷ request (str "/ws")
    ∷ []

-- Of three limited requests the second is refused; two ticks in a row give one token.
burst-run : run single burst ≡ (record { tokens = 0; capacity = 1 }, 2)
unfolding limiter
burst-run = refl

run_bound_example :
    ((run single burst).0.tokens ≤ 1)
    × ((run single burst).0.capacity ≡ 1)
    × ((run single burst).1 + (run single burst).0.tokens ≤ 1 + ticks burst)
    × ((run single burst).1 ≤ 1 + ticks burst)
run_bound_example = run_bound single burst (omega arith)
