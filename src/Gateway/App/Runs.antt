-- ===== src/Gateway/App/Runs.antt =====
-- The invariant of the gateway: what holds after any requests and ticks.
use vkr.Prelude.{◌≤◌, ◌≡◌, refl, ◌∙◌, arith, List, [], ◌∷◌}
use vkr.Prelude.Text.{Text}
use vkr.Metrics.Limiter.{RateLimiter, refill, allow, middleware}
use vkr.Http.{Env, Handler}
use vkr.Gateway.{final_handler, cors_middleware, logging_middleware, limited_mux}
use vkr.Gateway.App.{Site, Call, App, serve, Event, tick, call, run}
use vkr.Gateway.App.Kept.{IsKept, IsCounted, Moves-IsKept, Moves-IsCounted}
use vkr.Gateway.App.Moves.Serve.{run-Moves}

-- The limiter's bound.
limiter-bound :
    (method path : Text) (rl : RateLimiter)
    → rl.tokens ≤ rl.capacity
    → ((final_handler method path rl).1.tokens ≤ rl.capacity)
      × ((final_handler method path rl).1.capacity ≡ rl.capacity)
unfolding final_handler cors_middleware logging_middleware limited_mux middleware allow
limiter-bound method path rl h = ground arith

module _ {F32 F64 : Type 0} (env : Env F32 F64) (h : Handler) (site : Site F32 F64) where
  -- What no request and no tick changes, and the bounds that they keep.
  pub record IsSound (start a : App env) : Type 0 where
    pub pool : IsKept start.world.pool a.world.pool
    pub calls : IsCounted env start.world a.world
    pub tokens : a.limiter.tokens ≤ a.limiter.capacity
    pub capacity : a.limiter.capacity ≡ start.limiter.capacity

  limits-kept :
      (start a : App env) (c : Call F32)
      → a.limiter.tokens ≤ a.limiter.capacity
      → a.limiter.capacity ≡ start.limiter.capacity
      → let rl = (serve env h site c a).1.limiter in
        (rl.tokens ≤ rl.capacity) × (rl.capacity ≡ start.limiter.capacity)
  unfolding serve
  limits-kept start a c t e =
      let (bound, same) = limiter-bound c.request.method c.request.path a.limiter t in
      (rw same bound, same ∙ e)

  events_limits :
      (start : App env) (es : List (Event F32)) (a : App env)
      → a.limiter.tokens ≤ a.limiter.capacity
      → a.limiter.capacity ≡ start.limiter.capacity
      → let rl = (run env h site es a).limiter in
        (rl.tokens ≤ rl.capacity) × (rl.capacity ≡ start.limiter.capacity)
  unfolding run refill
  events_limits start [] a t e = (t, e)
  events_limits start (tick ∷ es) a t e = events_limits start es _ (ground arith) (ground arith)
  events_limits start (call c ∷ es) a t e =
      let (t', e') = limits-kept start a c t e in events_limits start es _ t' e'

  -- Whatever requests the gateway serves and however the limiter's ticks fall among them, the pool keeps
  -- its clients and their addresses, a valid pool stays valid, so that its counter is a uint64 and its
  -- fixed index is none or a client's; the log of the metrics only grows, by calls that the registry accepts;
  -- and the limiter never holds more tokens than its capacity, which
  -- stays what it was.
  pub run-IsSound :
      (a : App env) (es : List (Event F32))
      → a.limiter.tokens ≤ a.limiter.capacity
      → IsSound a (run env h site es a)
  run-IsSound a es t =
      let moves = run-Moves env h site es a in
      let (tokens, capacity) = events_limits a es a t refl in
      record {
        pool = Moves-IsKept env moves;
        calls = Moves-IsCounted env moves;
        tokens = tokens;
        capacity = capacity;
      }
