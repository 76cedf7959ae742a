-- ===== src/Metrics/Limiter.antt =====
-- The rate limiter of metrics.go: a channel of tokens, filled at the start, refilled by a ticker and
-- emptied by requests; and the middleware that asks it.
pub mod Bounds
pub mod Tests
use vkr.Prelude.{
  ℕ, suc, ◌+◌, ◌-◌, ◌/◌, ◌^◌, Bool, true, false, ◌||◌, Option, none, some, List, [], ◌∷◌, ltb, ◌==◌,
  if◌then◌else◌,
}
use vkr.Prelude.Int.{ℤ, pos, negsuc}
use vkr.Prelude.Text.{Text, str, eq_text}
use vkr.Go.Strings.{cut_prefix}

-- How many tokens the channel holds, and how many it can hold.
pub record RateLimiter : Type 0 where
  pub tokens : ℕ
  pub capacity : ℕ

-- What the goroutine that refills the channel does when it comes to run: it ticks with a period in
-- nanoseconds, or its panic ends the process.
pub data Ticker : Type 0 where
  every : ℕ → Ticker
  crashes : Ticker

-- The limiter is returned before its goroutine runs.
pub data Start : Type 0 where
  started : RateLimiter → Ticker → Start
  panics : Start

-- `time.NewTicker(time.Second / rps)`: a division by zero and a period of zero panic.
unfoldable pub new_ticker : ℕ → Ticker
new_ticker rps =
    if rps == 0 then crashes else if 10 ^ 9 / rps == 0 then crashes else every (10 ^ 9 / rps)

-- `make(chan struct{}, rps)`, which panics for a negative size, with the channel filled; the ticker is
-- made in the goroutine.
unfoldable pub new_rate_limiter : ℤ → Start
new_rate_limiter (negsuc n) = panics
new_rate_limiter (pos rps) = started (record { tokens = rps; capacity = rps }) (new_ticker rps)

-- A tick: `select { case rl.tokens <- struct{}{}: default: }`.
unfoldable pub refill : RateLimiter → RateLimiter
refill rl = if ltb rl.tokens rl.capacity then record rl { tokens = rl.tokens + 1 } else rl

unfoldable pub allow : RateLimiter → RateLimiter × Bool
allow rl = if ltb 0 rl.tokens then (record rl { tokens = rl.tokens - 1 }, true) else (rl, false)

abbrev has_prefix : Text → Text → Bool
has_prefix s prefix = elim (cut_prefix prefix s) [ none ↦ false | some rest ↦ true ]

-- The paths that are never limited.
unfoldable pub is_exempt : Text → Bool
is_exempt p =
    has_prefix p (str "/api/admin/") || eq_text p (str "/metrics") || eq_text p (str "/health")

-- `true` when the next handler runs, `false` when the answer is 429.
unfoldable pub middleware : RateLimiter → Text → RateLimiter × Bool
middleware rl path = if is_exempt path then (rl, true) else allow rl

-- What happens to a limiter: the ticker's ticks and the requests, in the order of the channel.
pub data Event : Type 0 where
  tick : Event
  request : Text → Event

abbrev one_if : Bool → ℕ
one_if true = 1
one_if false = 0

-- The limiter after some events, and how many requests on limited paths passed.
unfoldable pub run : RateLimiter → List Event → RateLimiter × ℕ
run rl [] = (rl, 0)
run rl (tick ∷ es) = run (refill rl) es
run rl (request path ∷ es) =
    let (rl', passed) = middleware rl path in
    let (last, count) = run rl' es in
    (last, (if is_exempt path then count else one_if passed + count))

abbrev pub ticks : List Event → ℕ
ticks [] = 0
ticks (tick ∷ es) = suc (ticks es)
ticks (request path ∷ es) = ticks es
