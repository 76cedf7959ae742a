-- ===== src/Gateway/App/Moves/Serve.antt =====
-- Every route's moves, and those of any run of the gateway: gateway/cmd/server/main.go.
use vkr.Prelude.{refl, arith, List, [], ◌∷◌, inl, inr, Bool-cases, Option-cases}
use vkr.Prelude.Text.{Text, str, eq_text}
use vkr.Prelude.Result.{Result-cases}
use vkr.Pool.{get, set_sticky}
use vkr.Pool.Choice.{get-ne-none}
use vkr.Http.{Request, Env, Handler, Input, World}
use vkr.Http.Session.{user_from_request}
use vkr.Http.Admin.{
  handle_health, handle_stats, handle_admin_routing, requested_index, show_routing, change_routing,
  handle_admin_processors_stats,
}
use vkr.Http.Runtime.{handle_runtime}
use vkr.Gateway.{Route, Dispatch, preflight, limited, served, final_handler}
use vkr.Gateway.App.{Site, Call, App, serve_route, dispatched, serve, Event, tick, call, run}
use vkr.Gateway.App.Moves.{Moves, still, one, after, same, ends, got, fix_client}
use vkr.Gateway.App.Moves.Accounts.{register-Moves, login-Moves, me-Moves, history-Moves}
use vkr.Gateway.App.Moves.Frames.{frame-Moves}
use vkr.Gateway.App.Moves.Streams.{stream-Moves, socket-Moves}

module _ {F32 F64 : Type 0} (env : Env F32 F64) (h : Handler) where
  module _ (input : Input) where
    health-Moves : (r : Request) (w : World env) → Moves env w (handle_health env h input r w).1
    unfolding handle_health
    health-Moves r w = same env (ground arith)

    rows-Moves :
        (r : Request) (w : World env)
        → Moves env w (handle_admin_processors_stats env h input r w).1
    unfolding handle_admin_processors_stats
    rows-Moves r w = same env (ground arith)

    stats-Moves : (r : Request) (w : World env) → Moves env w (handle_stats env h input r w).1
    unfolding handle_stats
    stats-Moves r w = elim (Option-cases (get w.pool)) [
      | inl stuck ↦ absurd (get-ne-none w.pool stuck)
      | inr ((res, pool), took) ↦ elim (Result-cases (user_from_request env h input r)) [
        | inr (msg, unknown) ↦ same env (ground (arith, unknown))
        | inl (user, known) ↦ ends env (got env took) (ground (arith, known, took))
      ]
    ]

    change_routing-Moves :
        (body : Text) (w : World env) → Moves env w (change_routing env h input body w).1
    unfolding change_routing
    change_routing-Moves body w = elim (Option-cases (env.decode_routing body)) [
      | inl bad ↦ same env (ground (arith, bad))
      | inr (req, decoded) ↦ elim (Result-cases (requested_index req)) [
        | inr (msg, wrong) ↦ same env (ground (arith, decoded, wrong))
        | inl (idx, asked) ↦ elim (Result-cases (set_sticky w.pool idx)) [
          | inr (msg, refused) ↦ same env (ground (arith, decoded, asked, refused))
          | inl (pool, set) ↦
              ends env (one env (fix_client idx pool set refl))
                (ground (arith, decoded, asked, set))
        ]
      ]
    ]

    routing-Moves :
        (r : Request) (w : World env) → Moves env w (handle_admin_routing env h input r w).1
    unfolding handle_admin_routing show_routing
    routing-Moves r w = elim (Result-cases (user_from_request env h input r)) [
      | inr (msg, unknown) ↦ same env (ground (arith, unknown))
      | inl (user, known) ↦ elim (Bool-cases (eq_text r.method (str "GET"))) [
        | inl shown ↦ same env (ground (arith, known, shown))
        | inr other ↦ elim (Bool-cases (eq_text r.method (str "POST"))) [
          | inr neither ↦ same env (ground (arith, known, other, neither))
          | inl post ↦ ends env (change_routing-Moves r.body w) (ground (arith, known, other, post))
        ]
      ]
    ]

  module _ (site : Site F32 F64) where
    runtime-Moves :
        (w : World env)
        → Moves env w (handle_runtime env site.of_int site.div site.mul site.sub w).1
    unfolding handle_runtime
    runtime-Moves w = elim (Option-cases (get w.pool)) [
      | inl stuck ↦ absurd (get-ne-none w.pool stuck)
      | inr ((r, pool), took) ↦ ends env (got env took) (ground (arith, took))
    ]

    route-Moves :
        (route : Route) (c : Call F32) (w : World env)
        → Moves env w (serve_route env h site route c w).1
    unfolding serve_route
    route-Moves Route.register c w = register-Moves env h c.input c.request w
    route-Moves Route.login c w = login-Moves env h c.input c.request w
    route-Moves Route.me c w = me-Moves env h c.input c.request w
    route-Moves Route.history c w = history-Moves env h c.input c.request w
    route-Moves Route.process c w = frame-Moves env h c.input c.request w
    route-Moves Route.stream c w =
        stream-Moves env h c.input site.parse_float site.is_zero site.default_radius c.choose
          c.clock c.request w
    route-Moves Route.web_socket c w = socket-Moves env h c.input c.upgrades c.messages c.request w
    route-Moves Route.health c w = health-Moves c.input c.request w
    route-Moves Route.stats c w = stats-Moves c.input c.request w
    route-Moves Route.runtime c w = runtime-Moves w
    route-Moves Route.admin_routing c w = routing-Moves c.input c.request w
    route-Moves Route.admin_stats c w = rows-Moves c.input c.request w
    route-Moves Route.metrics c w = still
    route-Moves Route.root c w = still
    route-Moves Route.login_page c w = still
    route-Moves Route.logout c w = still
    route-Moves Route.panel c w = still
    route-Moves Route.app c w = still

    dispatched-Moves :
        (d : Dispatch) (c : Call F32) (w : World env) → Moves env w (dispatched env h site d c w).1
    unfolding dispatched
    dispatched-Moves preflight c w = still
    dispatched-Moves limited c w = still
    dispatched-Moves (served route) c w = route-Moves route c w

    serve-Moves : (c : Call F32) (a : App env) → Moves env a.world (serve env h site c a).1.world
    unfolding serve
    serve-Moves c a =
        dispatched-Moves (final_handler c.request.method c.request.path a.limiter).0 c a.world

    -- The gateway refines the relation of moves: whatever requests it serves and however the limiter's
    -- ticks fall among them, the state that the requests share is changed only by taking clients from the
    -- pool, by fixing the pool's index as `SetSticky` accepts it, by calls of metrics that the registry
    -- accepts, and by inserting rows: users with a hash of a password, sessions with the hash of a token,
    -- and runs whose memory mode the table's condition allows.
    pub run-Moves :
        (es : List (Event F32)) (a : App env) → Moves env a.world (run env h site es a).world
    unfolding run
    run-Moves [] a = still
    run-Moves (tick ∷ es) a = run-Moves es _
    run-Moves (call c ∷ es) a = after env (serve-Moves c a) (run-Moves es _)
