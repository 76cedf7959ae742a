-- ===== src/Http/Tests.antt =====
-- The handlers over a database in memory, a toy digest and a processor that gives frames back: the
-- state, and the theorems on accounts, routing and pages at concrete inputs.
pub mod Frames
use vkr.Prelude.{
  ◌≤◌, ◌↔◌, ℕ, ◌+◌, ◌^◌, ◌<◌, ◌≡◌, ◌≢◌, ◌⊎◌, refl, true, false, Option, none, some, List, [], ◌∷◌,
  ◌++◌, arith, length, ltb,
}
use vkr.Prelude.Int.{ℤ, pos, ltb_ℤ, pos_part}
use vkr.Prelude.Text.{Text, str}
use vkr.Prelude.Result.{ok, err}
use vkr.Go.Base64.{encode_url, encode_std}
use vkr.Auth.{User, colon, payload_of, sign, unix, password_digest}
use vkr.Auth.Tests.{toy, toy_hmac-IsByte, toy_sha256-IsByte, manager, student}
use vkr.Media.{ProcessedChunk}
use vkr.Pool.{ProcessorPool}
use vkr.Pool.Tests.{two}
use vkr.Pool.Client.{Transport}
use vkr.Pool.Client
use vkr.Storage
use vkr.Storage.{bad_credentials}
use vkr.Storage.Tests.{memory, memory-IsRelational, empty, bob}
use vkr.Http.{
  Request, Cookie, AuthResponse, ProcessFrameResponse, RoutingRequest, response, redirect, panic,
  plain, html, login_page, http_error, auth_json, frame_json, status_json, Env, Handler, Input,
  World, not_allowed, normalize_memory_mode,
}
use vkr.Http.Session.{
  user_from_request, write_token, handle_register, handle_login, handle_me, handle_history,
}
use vkr.Http.Session.Accounts.{
  user_from_request-write_token, user_from_request-colon, login-register,
}
use vkr.Http.Frame.{with_metrics, handle_process_frame}
use vkr.Http.Frame.Laws.{
  IsProcessed, normalize_memory_mode_stable, handle_process_frame-ne-panic,
  handle_process_frame-IsProcessed, handle_process_frame-plain,
}
use vkr.Http.{health_json, processors_json}
use vkr.Http.{response, health_json, processors_json}
use vkr.Http.{status_json}
use vkr.Http.Admin.{all_healthy, change_routing, requested_index}
use vkr.Http.Stream.{frames, panics, buffer_size, read_frames}
use vkr.Http.Stream.Frames.{read_frames-joined}
use vkr.Http.Runtime.{arena_size, estimated_arena_used}
use vkr.Http.Pages.{handle_root, handle_panel_page, handle_login_page, pages-settle}

-- A processor that gives back the bytes that it gets.
abbrev pub given_back : Text → ProcessedChunk
given_back bytes = record {
  bytes = bytes;
  success = true;
  processing_time_ns = pos 1;
  sequence_id = pos 1;
  error_message = [];
  memory_metrics = none;
}

abbrev pub mirror : Transport ℕ ℕ
mirror = record {
  Stream = Text;
  process_media_stream = λ c mode. ok [];
  send = λ chunk s. ok chunk.bytes;
  close_send = λ s. ok s;
  recv = λ s. ok (given_back s);
  get_stats = λ c. err (str "unavailable");
}

-- A body is the password of "bob", the data of a frame of one pixel, or the mode of the routing.
abbrev pub env : Env ℕ ℕ
env = record {
  db = memory;
  crypto = toy;
  transport = mirror;
  decode_auth = λ body. some (record { username = str "bob"; password = body });
  decode_frame = λ body. some (record {
    frame = body;
    width = pos 1;
    height = pos 1;
    filter = str "gray";
    blur_radius = 0;
    memory_mode = str "heap";
  });
  decode_routing = λ body. some (record { mode = body; sticky_index = some (pos 1) });
  milliseconds = pos_part;
  no_intensity = 0;
}

abbrev pub handler : Handler
handler = record { has_store = true; tokens = some manager }

abbrev pub at_time : ℕ → Input
at_time now = record { now = now; finished = now; salt = ok (1 ∷ []) }

abbrev pub world : World env
world = record { pool = two; metrics = []; store = empty }

abbrev pub token_of : User → Text
token_of user =
    encode_url
      (payload_of user manager.ttl ++ colon ∷ sign toy manager (payload_of user manager.ttl))

abbrev pub given : User → AuthResponse
given user = record { token = token_of user; expires_at = manager.ttl; user = user }

abbrev pub cookie_of : User → Option Cookie
cookie_of user = some (record { value = token_of user; max_age = pos 86400 })

abbrev pub from : Text → Text → Text → Request
from method token body = record {
  method = method;
  path = str "/";
  authorization = str "Bearer " ++ token;
  cookie = none;
  query = [];
  body = body;
}

abbrev two_names : User
two_names = record { id = pos 8; username = str "a:b" }

user_from_request-write_token_example :
    user_from_request env handler (at_time 5) (from (str "GET") (token_of student) []) ≡ ok student
unfolding write_token str vkr.Auth.issue vkr.Storage.save_session
user_from_request-write_token_example =
    user_from_request-write_token env handler (at_time 0) (at_time 5) toy_hmac-IsByte manager
      student world _ (cookie_of student) (given student) (from (str "GET") (token_of student) [])
      refl (omega arith) (omega arith) (omega arith) (omega arith) refl refl

user_from_request-colon_example :
    user_from_request env handler (at_time 5) (from (str "GET") (token_of two_names) [])
    ≡ err (str "invalid token")
unfolding write_token str vkr.Auth.issue vkr.Storage.save_session vkr.Go.Strings.count
user_from_request-colon_example =
    user_from_request-colon env handler (at_time 0) (at_time 5) toy_hmac-IsByte manager two_names
      world _ (cookie_of two_names) (given two_names) (from (str "GET") (token_of two_names) [])
      refl (omega arith) (omega arith) refl refl

-- A user who asks for the reports.
abbrev asking : Request
asking = from (str "GET") (token_of student) []

-- A user who changes the mode.
abbrev posting : Text → Request
posting mode = from (str "POST") (token_of student) mode

pub is_student :
    (r : Request)
    → r.authorization ≡ str "Bearer " ++ token_of student
    → user_from_request env handler (at_time 5) r ≡ ok student
unfolding write_token str vkr.Auth.issue vkr.Storage.save_session
is_student r given_token =
    user_from_request-write_token env handler (at_time 0) (at_time 5) toy_hmac-IsByte manager
      student world _ (cookie_of student) (given student) r refl (omega arith) (omega arith)
      (omega arith) (omega arith) refl given_token
