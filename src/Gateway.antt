-- ===== src/Gateway.antt =====
-- gateway/cmd/server/main.go: the wait for the database, the routes and the chain of middlewares.
-- The paths are as Go's ServeMux hands them to the patterns.
pub mod Limits
pub mod Retry
pub mod App
pub mod Start
pub mod Shutdown
pub mod Tests
use vkr.Prelude.{
  ℕ, zero, suc, Bool, true, false, Option, none, some, List, [], ◌∷◌, ◌++◌, if◌then◌else◌,
}
use vkr.Prelude.Text.{Text, str, eq_text}
use vkr.Prelude.Result.{Result, ok, err}
use vkr.Metrics.Limiter.{RateLimiter, middleware}

-- The handlers that the routes lead to.
pub data Route : Type 0 where
  register login me history process stream web_socket health stats runtime admin_routing admin_stats
        metrics root login_page logout panel app :
      Route

-- The table of `mux.HandleFunc`; the pattern "/" takes every other path.
abbrev pub routes : List (Text × Route)
routes =
    (str "/api/register", register)
    ∷ (str "/api/login", login)
    ∷ (str "/api/me", me)
    ∷ (str "/api/history", history)
    ∷ (str "/api/process", process)
    ∷ (str "/process", process)
    ∷ (str "/api/stream", stream)
    ∷ (str "/ws", web_socket)
    ∷ (str "/health", health)
    ∷ (str "/stats", stats)
    ∷ (str "/runtime", runtime)
    ∷ (str "/api/admin/routing", admin_routing)
    ∷ (str "/api/admin/processors/stats", admin_stats)
    ∷ (str "/metrics", metrics)
    ∷ (str "/login", login_page)
    ∷ (str "/logout", logout)
    ∷ (str "/panel", panel)
    ∷ (str "/app", app)
    ∷ []

unfoldable pub lookup : List (Text × Route) → Text → Route
lookup [] path = root
lookup ((pattern_, target) ∷ more) path = if eq_text path pattern_ then target else lookup more path

-- What a request meets: an answer to a preflight, the answer 429, or a handler.
pub data Dispatch : Type 0 where
  preflight limited : Dispatch
  served : Route → Dispatch

unfoldable pub cors_middleware :
    (Text → Text → RateLimiter → Dispatch × RateLimiter)
    → Text
    → Text
    → RateLimiter
    → Dispatch × RateLimiter
cors_middleware next method path rl =
    if eq_text method (str "OPTIONS") then (preflight, rl) else next method path rl

-- The logging changes nothing.
unfoldable pub logging_middleware :
    (Text → Text → RateLimiter → Dispatch × RateLimiter)
    → Text
    → Text
    → RateLimiter
    → Dispatch × RateLimiter
logging_middleware next method path rl = next method path rl

unfoldable pub limited_mux : Text → Text → RateLimiter → Dispatch × RateLimiter
limited_mux method path rl =
    let (rl', passed) = middleware rl path in
    if passed then (served (lookup routes path), rl') else (limited, rl')

-- `finalHandler`
unfoldable pub final_handler : Text → Text → RateLimiter → Dispatch × RateLimiter
final_handler = cors_middleware (logging_middleware limited_mux)

-- `open_store` is `storage.Open` at an attempt, with what it does to the database's handles.
module _ {Store Event : Type 0} (open_store : ℕ → Result Store × List Event) where
  -- What `openStoreWithRetry` returns: a store, or nil with the last error, if there was one.
  pub data Opened : Type 0 where
    opened : Store → Opened
    gave_up : Option Text → Opened

  -- The loop from attempt `i`, with `attempts` left.
  unfoldable pub retry : ℕ → ℕ → Option Text → Opened × List Event
  retry i zero last_err = (gave_up last_err, [])
  retry i (suc attempts) last_err =
      let (result, done) = open_store i in
      elim result [
        | ok store ↦ (opened store, done)
        | err e ↦ let (last, later) = retry (suc i) attempts (some e) in (last, done ++ later)
      ]

  unfoldable pub open_store_with_retry : ℕ → Opened × List Event
  open_store_with_retry attempts = retry 0 attempts none
