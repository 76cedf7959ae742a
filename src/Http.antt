-- ===== src/Http.antt =====
-- gateway/internal/http: the requests, the answers and what the handlers share.
pub mod Session
pub mod Frame
pub mod Admin
pub mod Socket
pub mod Pages
pub mod Stream
pub mod Runtime
pub mod Tests
use vkr.Prelude.{ℕ, Bool, true, false, Option, none, some, List, [], ◌∷◌, ◌||◌, if◌then◌else◌}
use vkr.Prelude.Int.{ℤ}
use vkr.Prelude.Text.{Text, str, eq_text}
use vkr.Prelude.Result.{Result}
use vkr.Go.Strings.{to_lower}
use vkr.Auth.{User, TokenManager, Crypto}
use vkr.Pool.{ProcessorPool}
use vkr.Pool.Client.{Transport}
use vkr.Metrics.{Metrics}
use vkr.Storage.{Database, ProcessingRun}
use vkr.Media.{FilterType, gaussian_blur, sharpen, edge_detect, grayscale, StatsResponse}

-- `authorization` is empty without that header, and `cookie` is the cookie `auth_token`.
pub record Request : Type 0 where
  pub method : Text
  pub path : Text
  pub authorization : Text
  pub cookie : Option Text
  pub query : List (Text × Text)
  pub body : Text

-- The cookie `auth_token` with path "/", HttpOnly and SameSite Lax.
pub record Cookie : Type 0 where
  pub value : Text
  pub max_age : ℤ

pub record AuthRequest : Type 0 where
  pub username : Text
  pub password : Text

pub record AuthResponse : Type 0 where
  pub token : Text
  pub expires_at : ℕ
  pub user : User

-- `frame` is the Base64 text of the field `data`.
pub record ProcessFrameRequest (F32 : Type 0) : Type 0 where
  pub frame : Text
  pub width : ℤ
  pub height : ℤ
  pub filter : Text
  pub blur_radius : F32
  pub memory_mode : Text

pub record ProcessFrameResponse (F64 : Type 0) : Type 0 where
  pub frame : Text
  pub success : Bool
  pub processing_time_ms : F64
  pub memory_mode : Text
  pub error : Text

-- The body of a POST to /api/admin/routing.
pub record RoutingRequest : Type 0 where
  pub mode : Text
  pub sticky_index : Option ℤ

pub record RoutingResponse : Type 0 where
  pub mode : Text
  pub sticky_index : ℤ
  pub addresses : List Text
  pub health : List (Text × Bool)

-- `implementation` is always "cpp"; `is_cpp` says which of two texts `memory_semantics` is.
pub record ProcStats (F64 : Type 0) : Type 0 where
  pub index : ℕ
  pub address : Text
  pub is_cpp : Bool
  pub stats : Result (StatsResponse F64)

-- What an answer holds: a text, or the value that is written as JSON.
pub data Body (F64 : Type 0) : Type 0 where
  plain : Text → Body F64
  user_json : User → Body F64
  auth_json : AuthResponse → Body F64
  runs_json : List (ProcessingRun F64) → Body F64
  frame_json : ProcessFrameResponse F64 → Body F64
  health_json : Text → List (Text × Bool) → Body F64
  stats_json : StatsResponse F64 → Body F64
  routing_json : RoutingResponse → Body F64
  processors_json : List (ProcStats F64) → Body F64
  status_json : Text → Body F64
  login_page : Body F64
  html : Text → Body F64

pub data Response (F64 : Type 0) : Type 0 where
  response : (status : ℕ) → Option Cookie → Body F64 → Response F64
  redirect : Text → Option Cookie → Response F64
  panic : Response F64

-- `http.Error`
abbrev pub http_error : {F64 : Type 0} → Text → ℕ → Response F64
http_error message status = response status none (plain message)

abbrev pub json : {F64 : Type 0} → Body F64 → Response F64
json body = response 200 none body

-- What the handlers use and this repository does not implement. `milliseconds` is
-- `float64(ns) / 1e6`; the decoders are those of encoding/json.
pub record Env (F32 F64 : Type 0) : Type 1 where
  pub db : Database F64
  pub crypto : Crypto
  pub transport : Transport F32 F64
  pub decode_auth : Text → Option AuthRequest
  pub decode_frame : Text → Option (ProcessFrameRequest F32)
  pub decode_routing : Text → Option RoutingRequest
  pub milliseconds : ℤ → F64
  pub no_intensity : F32

-- `store` and `tokens` may be nil.
pub record Handler : Type 0 where
  pub has_store : Bool
  pub tokens : Option TokenManager

-- For each request: the clock as a handler first reads it, the clock as it reads it again, and the
-- random source.
pub record Input : Type 0 where
  pub now : ℕ
  pub finished : ℕ
  pub salt : Result Text

-- What the requests share.
pub record World {F32 F64 : Type 0} (env : Env F32 F64) : Type 0 where
  pub pool : ProcessorPool
  pub metrics : Metrics
  pub store : env.db.State

abbrev pub not_allowed : Text
not_allowed = str "Method not allowed"

abbrev pub no_storage : Text
no_storage = str "PostgreSQL storage is not configured"

-- `r.URL.Query().Get(key)`: the first value, or the empty text.
unfoldable pub query_get : Text → List (Text × Text) → Text
query_get key [] = []
query_get key ((k, v) ∷ more) = if eq_text k key then v else query_get key more

unfoldable pub parse_filter_type : Text → FilterType
parse_filter_type filter =
    if eq_text filter (str "gaussian_blur") || eq_text filter (str "blur")
    then gaussian_blur
    else if eq_text filter (str "sharpen")
    then sharpen
    else if eq_text filter (str "edge_detect") || eq_text filter (str "edge")
    then edge_detect
    else if eq_text filter (str "grayscale") || eq_text filter (str "gray")
    then grayscale
    else gaussian_blur

unfoldable pub normalize_memory_mode : Text → Text
normalize_memory_mode mode =
    let lower = to_lower mode in
    if eq_text lower (str "heap")
      || eq_text lower (str "no_arena")
      || eq_text lower (str "no-arena")
    then str "no_arena"
    else str "arena"
