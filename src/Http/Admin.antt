-- ===== src/Http/Admin.antt =====
-- gateway/internal/http/handlers.go: health, statistics and the routing of the processors.
pub mod Routing
pub mod Processors
use vkr.Prelude.{
  ℕ, zero, suc, ◌+◌, Bool, true, false, not, ◌&&◌, ◌||◌, Option, none, some, List, [], ◌∷◌, ◌++◌,
  if◌then◌else◌,
}
use vkr.Prelude.Int.{ℤ, pos, negsuc, ltb_ℤ}
use vkr.Prelude.Text.{Text, str, eq_text}
use vkr.Prelude.Result.{Result, ok, err}
use vkr.Go.Strings.{contains}
use vkr.Pool.{ProcessorClient, ProcessorPool, get, count, client_at, get_sticky, set_sticky}
use vkr.Pool.Client.{get_stats, health_check}
use vkr.Metrics.{Metrics}
use vkr.Http.{
  Request, RoutingRequest, RoutingResponse, ProcStats, Response, response, panic, http_error, json,
  health_json, stats_json, routing_json, processors_json, status_json, Env, Handler, Input, World,
  not_allowed,
}
use vkr.Http.Session.{with_user}
use vkr.Http.Frame.{no_processors}

abbrev pub all_healthy : List (Text × Bool) → Bool
all_healthy [] = true
all_healthy ((addr, healthy) ∷ health) = healthy && all_healthy health

-- The index that a routing request asks for; -1 is round-robin.
unfoldable pub requested_index : RoutingRequest → Result ℤ
requested_index body =
    if eq_text body.mode (str "round_robin") || eq_text body.mode []
    then ok (negsuc 0)
    else if eq_text body.mode (str "fixed")
    then (elim body.sticky_index [
      | none ↦ err (str "fixed mode requires sticky_index")
      | some i ↦ ok i
    ])
    else err (str "mode must be round_robin or fixed")

module _ {F32 F64 : Type 0} (env : Env F32 F64) (h : Handler) (input : Input) where
  open env use {transport, decode_routing}

  unfoldable pub handle_health : Request → World env → Response F64 × World env
  handle_health r w =
      let health = health_check transport w.pool in
      if all_healthy health
      then (response 200 none (health_json (str "healthy") health), w)
      else (response 503 none (health_json (str "degraded") health), w)

  unfoldable pub handle_stats : Request → World env → Response F64 × World env
  handle_stats r w = with_user env h input r w λ user. elim (get w.pool) [
    | none ↦ (panic, w)
    | some (err e, pool) ↦ (http_error no_processors 503, record w { pool = pool })
    | some (ok client, pool) ↦ elim (get_stats transport client) [
      | err e ↦ (http_error (str "Failed to get stats: " ++ e) 500, record w { pool = pool })
      | ok stats ↦ (json (stats_json stats), record w { pool = pool })
    ]
  ]

  -- GET: the mode, the index, the addresses and their health.
  unfoldable pub show_routing : World env → Response F64 × World env
  show_routing w =
      let sticky = get_sticky w.pool in
      (
        json (
            routing_json (record {
              mode = if ltb_ℤ sticky (pos 0) then str "round_robin" else str "fixed";
              sticky_index = sticky;
              addresses = w.pool.addrs;
              health = health_check transport w.pool;
            })),
        w,
      )

  -- POST: a change of the mode.
  unfoldable pub change_routing : Text → World env → Response F64 × World env
  change_routing body w = elim (decode_routing body) [
    | none ↦ (http_error (str "Invalid JSON") 400, w)
    | some req ↦ elim (requested_index req) [
      | err e ↦ (http_error e 400, w)
      | ok idx ↦ elim (set_sticky w.pool idx) [
        | err e ↦ (http_error e 400, w)
        | ok pool ↦ (json (status_json (str "ok")), record w { pool = pool })
      ]
    ]
  ]

  unfoldable pub handle_admin_routing : Request → World env → Response F64 × World env
  handle_admin_routing r w = with_user env h input r w λ user.
      if eq_text r.method (str "GET")
      then show_routing w
      else if eq_text r.method (str "POST")
      then change_routing r.body w
      else (http_error not_allowed 405, w)

  -- The row of a processor, where `ClientAt` gives one.
  abbrev pub row : ℕ → Option (Result ProcessorClient) → List (ProcStats F64)
  row i none = []
  row i (some (err e)) = []
  row i (some (ok c)) =
      record {
        index = i;
        address = c.addr;
        is_cpp = contains c.addr (str "processor-cpp");
        stats = get_stats transport c;
      }
      ∷ []

  -- The rows of `n` processors from index `i`.
  unfoldable pub rows : ProcessorPool → ℕ → ℕ → List (ProcStats F64)
  rows p zero i = []
  rows p (suc n) i = row i (client_at p (pos i)) ++ rows p n (i + 1)

  unfoldable pub handle_admin_processors_stats : Request → World env → Response F64 × World env
  handle_admin_processors_stats r w =
      if not (eq_text r.method (str "GET"))
      then (http_error not_allowed 405, w)
      else with_user env h input r w
          λ user. (json (processors_json (rows w.pool (count w.pool) 0)), w)
