-- ===== src/Metrics/Limiter/Bounds.antt =====
-- How many requests the limiter of metrics.go lets through.
use native.Mathlib.Nat.{div-add-mod, mod-lt, div-eq_of_lt}
use vkr.Prelude.{
  ◌||◌, ℕ, ◌+◌, ◌/◌, ◌^◌, ◌≤◌, ◌<◌, ◌≡◌, ◌↔◌, false, List, [], ◌∷◌, arith, ltb, ◌==◌, if◌then◌else◌,
  Bool-cases, inl, inr, ◌⊎◌,
}
use vkr.Prelude.Text.{Text}
use vkr.Metrics.Limiter.{
  RateLimiter, every, crashes, new_ticker, refill, allow, is_exempt, middleware, Event, tick,
  request, one_if, run, ticks,
}

rate-le : (n : ℕ) → 1 ≤ 10 ^ 9 / n → n ≤ 10 ^ 9
rate-le n fine = elim (Bool-cases (ltb (10 ^ 9) n)) [
  | inl above ↦ absurd (omega (arith, fine, div-eq_of_lt {n = 10 ^ 9} {m = n} (ground arith)))
  | inr below ↦ ground arith
]

-- The goroutine ticks just for a rate of at least one and at most a thousand million a second.
pub new_ticker-every :
    (n : ℕ)
    → ((new_ticker n ≡ crashes) × ((n ≡ 0) ⊎ (10 ^ 9 < n)))
      ⊎ ((new_ticker n ≡ every (10 ^ 9 / n)) × (1 ≤ n) × (n ≤ 10 ^ 9) × (1 ≤ 10 ^ 9 / n))
unfolding new_ticker
new_ticker-every n = elim (Bool-cases (n == 0)) [
  | inl zero_rate ↦ inl (ground arith, inl (ground arith))
  | inr some_rate ↦ elim (Bool-cases (10 ^ 9 / n == 0)) [
    | inl fast ↦
        inl (ground arith, inr (grind (arith, div-add-mod (10 ^ 9) n, mod-lt (10 ^ 9) {m = n})))
    | inr fine ↦ inr (ground arith, ground arith, rate-le n (ground arith), ground arith)
  ]
]

middleware_lem :
    (rl : RateLimiter) (path : Text)
    → ((middleware rl path).0.capacity ≡ rl.capacity)
      × ((middleware rl path).0.tokens
            + (if is_exempt path then 0 else one_if (middleware rl path).1)
          ≡ rl.tokens)
unfolding middleware allow
middleware_lem rl path = ground arith

-- In every sequence of ticks and requests the bucket never holds more tokens than its capacity, and
-- the requests that pass on limited paths, with the tokens left, are at most the tokens at the
-- start and one for each tick. So in every stretch of time at most a bucket's worth and one request
-- for each tick pass.
pub run_bound :
    (rl : RateLimiter) (es : List Event)
    → rl.tokens ≤ rl.capacity
    → ((run rl es).0.tokens ≤ rl.capacity)
      × ((run rl es).0.capacity ≡ rl.capacity)
      × ((run rl es).1 + (run rl es).0.tokens ≤ rl.tokens + ticks es)
      × ((run rl es).1 ≤ rl.capacity + ticks es)
unfolding run refill
run_bound rl [] h = omega arith
run_bound rl (tick ∷ es) h = let ih = run_bound (refill rl) es in ground (arith, ih)
run_bound rl (request path ∷ es) h =
    let ih = run_bound (middleware rl path).0 es in
    let (cap, left) = middleware_lem rl path in ground (arith, ih)

-- No token is lost: a request on a limited path is refused exactly when the bucket is empty, and one
-- that comes right after a tick passes exactly when there was a token or is room for one.
pub allow_iff :
    (rl : RateLimiter)
    → (((allow rl).1 ≡ false) ↔ (rl.tokens ≡ 0))
      × ((allow (refill rl)).1 ≡ (ltb 0 rl.tokens || ltb 0 rl.capacity))
unfolding allow refill
allow_iff rl = (ground arith, ground arith)
