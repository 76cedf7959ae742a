-- ===== src/Gateway/Limits.antt =====
-- Which requests the rate limiter stops.
use vkr.Prelude.{◌-◌, ◌<◌, ◌≡◌, refl, true, false, ◌⊎◌, inl, inr, arith, ltb, Bool-cases}
use vkr.Prelude.Text.{Text, str, eq_text}
use vkr.Metrics.Limiter.{RateLimiter, allow, is_exempt, middleware}
use vkr.Gateway.{
  preflight, limited, served, routes, lookup, cors_middleware, logging_middleware, limited_mux,
  final_handler,
}

-- A request passes the chain of middlewares in one of four ways: a preflight is answered and takes no
-- token; a request on an exempt path is served and takes none; another is served and takes one; or it
-- is stopped, where there is none.
pub final_handler-cases :
    (method path : Text) (rl : RateLimiter)
    → (final_handler method path rl ≡ (preflight, rl))
      ⊎ ((is_exempt path ≡ true)
          × (final_handler method path rl ≡ (served (lookup routes path), rl)))
      ⊎ ((0 < rl.tokens)
          × (final_handler method path rl
              ≡ (served (lookup routes path), record rl { tokens = rl.tokens - 1 })))
      ⊎ ((rl.tokens ≡ 0)
          × (is_exempt path ≡ false)
          × (final_handler method path rl ≡ (limited, rl)))
unfolding final_handler cors_middleware logging_middleware limited_mux middleware allow
final_handler-cases method path rl = elim (Bool-cases (eq_text method (str "OPTIONS"))) [
  | inl options ↦ inl (rw options refl)
  | inr other ↦ elim (Bool-cases (is_exempt path)) [
    | inl exempt ↦ inr (inl (exempt, rw (other, exempt) refl))
    | inr counted ↦ elim (Bool-cases (ltb 0 rl.tokens)) [
      | inl some_left ↦ inr (inr (inl (ground arith, rw (other, counted, some_left) refl)))
      | inr empty ↦ inr (inr (inr (ground arith, counted, rw (other, counted, empty) refl)))
    ]
  ]
]
