-- ===== src/Gateway/App.antt =====
-- gateway/cmd/server/main.go: the handlers behind the routes and the middlewares, over the state that
-- all requests share. The page of the Prometheus metrics is not modelled, and the two HTML texts are
-- arguments.
pub mod Moves
pub mod Answered
pub mod Panics
pub mod Kept
pub mod Accounts
pub mod Runs
use vkr.Prelude.{ℕ, Bool, List, [], ◌∷◌}
use vkr.Prelude.Int.{ℤ}
use vkr.Prelude.Text.{Text}
use vkr.Media.{MediaChunk}
use vkr.Pool.{ProcessorClient}
use vkr.Metrics.Limiter.{RateLimiter, refill}
use vkr.Http.{Request, Response, Env, Handler, Input, World}
use vkr.Http.Session.{handle_register, handle_login, handle_me, handle_history}
use vkr.Http.Frame.{handle_process_frame}
use vkr.Http.Stream.{Selected, StreamReply, handle_process_stream}
use vkr.Http.Socket.{Message, Reply, handle_web_socket}
use vkr.Http.Admin.{
  handle_health, handle_stats, handle_admin_routing, handle_admin_processors_stats,
}
use vkr.Http.Runtime.{RuntimeReply, handle_runtime}
use vkr.Http.Pages.{handle_root, handle_login_page, handle_logout, handle_panel_page}
use vkr.Gateway.{Route, Dispatch, preflight, limited, served, final_handler}

-- What the handlers compute with floats, and the two pages.
pub record Site (F32 F64 : Type 0) : Type 0 where
  pub parse_float : Text → F32
  pub is_zero : F32 → Bool
  pub default_radius : F32
  pub of_int : ℤ → F64
  pub div : F64 → F64 → F64
  pub mul : F64 → F64 → F64
  pub sub : F64 → F64 → F64
  pub index_html : Text
  pub app_html : Text

-- One request, with what it meets: the clock and the random source, the messages of a WebSocket, and
-- what the channels of a stream give.
pub record Call (F32 : Type 0) : Type 0 where
  pub request : Request
  pub input : Input
  pub upgrades : Bool
  pub messages : List Message
  pub choose : ProcessorClient → Text → List (MediaChunk F32) → List Selected
  pub clock : ℕ → ℕ

pub data Answer (F64 : Type 0) : Type 0 where
  plain : Response F64 → Answer F64
  streamed : StreamReply F64 → Answer F64
  socket : Reply F64 → Answer F64
  runtime : RuntimeReply F64 → Answer F64
  metrics_page preflight_ok too_many_requests : Answer F64

abbrev pub with_answer : {A B W : Type 0} → (A → B) → A × W → B × W
with_answer f (a, w) = (f a, w)

pub record App {F32 F64 : Type 0} (env : Env F32 F64) : Type 0 where
  pub world : World env
  pub limiter : RateLimiter

-- The requests and the ticks of the limiter, in the order in which they take effect.
pub data Event (F32 : Type 0) : Type 0 where
  tick : Event F32
  call : Call F32 → Event F32

module _ {F32 F64 : Type 0} (env : Env F32 F64) (h : Handler) (site : Site F32 F64) where
  unfoldable pub serve_route : Route → Call F32 → World env → Answer F64 × World env
  serve_route Route.register c w = with_answer plain (handle_register env h c.input c.request w)
  serve_route Route.login c w = with_answer plain (handle_login env h c.input c.request w)
  serve_route Route.me c w = with_answer plain (handle_me env h c.input c.request w)
  serve_route Route.history c w = with_answer plain (handle_history env h c.input c.request w)
  serve_route Route.process c w = with_answer plain (handle_process_frame env h c.input c.request w)
  serve_route Route.stream c w = with_answer streamed (
      handle_process_stream env h c.input site.parse_float site.is_zero site.default_radius c.choose
        c.clock c.request w)
  serve_route Route.web_socket c w =
      with_answer socket (handle_web_socket env h c.input c.upgrades c.messages c.request w)
  serve_route Route.health c w = with_answer plain (handle_health env h c.input c.request w)
  serve_route Route.stats c w = with_answer plain (handle_stats env h c.input c.request w)
  serve_route Route.runtime c w =
      with_answer runtime (handle_runtime env site.of_int site.div site.mul site.sub w)
  serve_route Route.admin_routing c w =
      with_answer plain (handle_admin_routing env h c.input c.request w)
  serve_route Route.admin_stats c w =
      with_answer plain (handle_admin_processors_stats env h c.input c.request w)
  serve_route Route.metrics c w = (metrics_page, w)
  serve_route Route.root c w = (plain (handle_root env h c.input c.request), w)
  serve_route Route.login_page c w = (plain (handle_login_page env h c.input c.request), w)
  serve_route Route.logout c w = (plain (handle_logout env h c.input c.request), w)
  serve_route Route.panel c w =
      (plain (handle_panel_page env h c.input site.index_html c.request), w)
  serve_route Route.app c w = (plain (handle_panel_page env h c.input site.app_html c.request), w)

  unfoldable pub dispatched : Dispatch → Call F32 → World env → Answer F64 × World env
  dispatched preflight c w = (preflight_ok, w)
  dispatched limited c w = (too_many_requests, w)
  dispatched (served route) c w = serve_route route c w

  -- `finalHandler.ServeHTTP`
  unfoldable pub serve : Call F32 → App env → Answer F64 × App env
  serve c a =
      let (dispatch, rl) = final_handler c.request.method c.request.path a.limiter in
      let (answer, w) = dispatched dispatch c a.world in
      (answer, record { world = w; limiter = rl })

  unfoldable pub run : List (Event F32) → App env → App env
  run [] a = a
  run (tick ∷ es) a = run es (record a { limiter = refill a.limiter })
  run (call c ∷ es) a = run es (serve c a).1
