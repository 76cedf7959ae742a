-- ===== src/Gateway/Tests.antt =====
-- The theorems on the entry point at concrete inputs.
use vkr.Prelude.{ℕ, ◌-◌, ◌<◌, ◌⊎◌, refl, true, arith}
use vkr.Prelude.Text.{Text, str}
use vkr.Prelude.Result.{ok, err}
use vkr.Gateway.Retry.{AllFail, open_store_with_retry_lem}
use vkr.Metrics.Limiter.{RateLimiter, every}
use vkr.Gateway.{opened, gave_up, open_store_with_retry}
use vkr.Prelude.{◌/◌, ◌*◌, List, [], ◌∷◌}
use vkr.Prelude.Int.{pos_part}
use vkr.Auth.Tests.{manager, student}
use vkr.Http.Tests.{env, handler, at_time, world, from}
use vkr.Gateway.App.{Site, Call, App, Event, tick, call, run}
use vkr.Gateway.App.Runs.{IsSound, run-IsSound}
use vkr.Prelude.{◌^◌, none, some}
use vkr.Prelude.Int.{pos, negsuc}
use vkr.Auth.{new_token_manager}
use vkr.Metrics.{set_processor_pool_size}
use vkr.Prelude.{◌≡◌, if◌then◌else◌}
use vkr.Prelude.Text.{eq_text}
use vkr.Auth.{password_digest}
use vkr.Auth.Tests.{toy, toy_sha256-IsByte}
use vkr.Storage.{bad_credentials}
use vkr.Storage.Tests.{bob, memory-IsRelational, memory-IsDurable}
use vkr.Http.{Request, http_error}
use vkr.Http.Session.{handle_register, handle_login, write_token}
use vkr.Http.Stream.{result}
use vkr.Http.Tests.{cookie_of, given, given_back, token_of}
use vkr.Gateway.App.Accounts.{login-run}
use vkr.Gateway.App.Moves.{Moves}
use vkr.Gateway.App.Moves.Serve.{run-Moves}
use vkr.Prelude.{◌+◌, ◌++◌, ◌==◌}
use vkr.Pool.Lifecycle
use vkr.Storage.Connection.{Driver, Store, open_store}
use vkr.Storage.Connection.Live.{live}
use vkr.Gateway.Shutdown.{shutdown-closes}
use vkr.Gateway.Start.{
  shutdown, Settings, Parts, IsReady, start, start_store, start_limiter, start-IsReady,
}

-- A database that answers at the second attempt.
abbrev second_time : Driver
second_time = record {
  sql_open = λ attempt. ok (attempt + 7);
  ping = λ attempt db. if attempt == 0 then some (str "refused") else none;
  close_db = λ db. none;
  exec_schema = λ db. none;
}

abbrev site : Site ℕ ℕ
site = record {
  parse_float = λ s. 0;
  is_zero = λ x. true;
  default_radius = 5;
  of_int = pos_part;
  div = λ a b. a / b;
  mul = λ a b. a * b;
  sub = λ a b. a - b;
  index_html = str "<html>";
  app_html = str "<html>";
}

abbrev call_of : Text → Text → Call ℕ
call_of method path = record {
  request = record (from method [] []) { path = path };
  input = at_time 5;
  upgrades = true;
  messages = [];
  choose = λ c mode chunks. [];
  clock = λ n. n;
}

-- A gateway with one token left.
abbrev gateway : App env
gateway = record { world = world; limiter = record { tokens = 1; capacity = 2 } }

abbrev events : List (Event ℕ)
events =
    call (call_of (str "GET") (str "/runtime"))
    ∷ tick
    ∷ call (call_of (str "GET") (str "/stats"))
    ∷ []

run-IsSound_example : IsSound env handler site gateway (run env handler site events gateway)
run-IsSound_example = run-IsSound env handler site gateway events (omega arith)

-- A stream of frames of one pixel, whose client gives a result and then falls silent.
abbrev silent_call : Call ℕ
silent_call = record (call_of (str "POST") (str "/api/stream")) {
  request = record (from (str "POST") (token_of student) (1 ∷ 2 ∷ 3 ∷ [])) {
    path = str "/api/stream";
    query = (str "width", str "1") ∷ (str "height", str "1") ∷ [];
  };
  choose = λ c mode chunks. result (given_back (1 ∷ 2 ∷ 3 ∷ [])) ∷ [];
}

abbrev local : Settings
local = record {
  addrs = str "a:9090" ∷ str "b:9090" ∷ [];
  has_database = true;
  secret = [];
  rate_limit = pos 1000;
}

abbrev parts : Parts
parts = record {
  pool = record {
    clients =
        record { conn = some 1; addr = str "a:9090" }
        ∷ record { conn = some 1; addr = str "b:9090" }
        ∷ [];
    addrs = str "a:9090" ∷ str "b:9090" ∷ [];
    current = 0;
    sticky = negsuc 0;
  };
  metrics = set_processor_pool_size (pos 2) [];
  store = some (record { db = some 8 });
  tokens = new_token_manager [] (24 * 3600 * 10 ^ 9);
  limiter = record { tokens = 1000; capacity = 1000 };
  ticker = every 1000000;
}

open_store_with_retry_lem_example :
    ((k : ℕ) × (store : Store) × (k < 12)
      × AllFail (open_store second_time) 0 k
      × ((open_store second_time k).0 ≡ ok store)
      × ((open_store_with_retry (open_store second_time) 12).0 ≡ opened store))
    ⊎ (AllFail (open_store second_time) 0 12
        × ((e : Text) × ((open_store second_time 11).0 ≡ err e)
            × ((open_store_with_retry (open_store second_time) 12).0 ≡ gave_up (some e))))
open_store_with_retry_lem_example = open_store_with_retry_lem (open_store second_time) 11

start-IsReady_example : IsReady (λ a. ok 1) (λ c. none) second_time local parts
unfolding start start_store start_limiter vkr.Pool.new_processor_pool vkr.Pool.new_processor_client
    open_store_with_retry vkr.Gateway.retry vkr.Storage.Connection.open_store
    vkr.Storage.Connection.migrate vkr.Metrics.Limiter.new_rate_limiter
    vkr.Metrics.Limiter.new_ticker
start-IsReady_example =
    start-IsReady (λ a. ok 1) (λ c. none) second_time local parts (omega arith) refl

-- "bob" registers with the password "pw", others ask for this and that, among them a second "bob", and
-- he logs in with "no".
abbrev registration : Request
registration = record (from (str "POST") [] (str "pw")) { path = str "/api/register" }

abbrev after_bob : App env
after_bob = record gateway {
  world = (handle_register env handler (at_time 0) registration world).1;
}

abbrev later_events : List (Event ℕ)
later_events =
    call (record (call_of (str "POST") (str "/api/register")) { request = registration }) ∷ events

login-run_example :
    handle_login env handler
      (at_time 5)
      (from (str "POST") [] (str "no"))
      (run env handler site later_events after_bob).world
    ≡ (if eq_text
          (password_digest toy (1 ∷ []) (str "pw"))
          (password_digest toy (1 ∷ []) (str "no"))
        then write_token env handler
            (at_time 5)
            bob
            (run env handler site later_events after_bob).world
        else (http_error bad_credentials 401, (run env handler site later_events after_bob).world))
unfolding handle_register write_token str eq_text vkr.Auth.issue vkr.Storage.save_session
    vkr.Storage.create_user vkr.Storage.Tests.insert_user vkr.Storage.Tests.find
    vkr.Auth.hash_password
login-run_example =
    login-run env handler site (at_time 0) (at_time 5) memory-IsRelational memory-IsDurable
      toy_sha256-IsByte manager registration (from (str "POST") [] (str "no")) (str "bob")
      (str "pw") (str "no") (1 ∷ []) world after_bob (cookie_of bob) (given bob) later_events refl
      refl (omega arith) refl refl refl refl

run-Moves_example : Moves env gateway.world (run env handler site events gateway).world
run-Moves_example = run-Moves env handler site events gateway

abbrev serving_parts : App env
serving_parts = record { world = record world { pool = parts.pool }; limiter = parts.limiter }

shutdown-closes_example :
    (live
        ((start (λ a. ok 1) (λ c. none) second_time local).1
          ++ (shutdown
              (λ a. ok 1)
              (λ c. none)
              second_time
              parts.store
              (run env handler site events serving_parts).world.pool).0)
        []
      ≡ [])
    × ((shutdown
          (λ a. ok 1)
          (λ c. none)
          second_time
          parts.store
          (run env handler site events serving_parts).world.pool).1.closed
        ≡ Lifecycle.opened (λ a. ok 1) (λ c. none) local.addrs)
unfolding start start_store start_limiter vkr.Pool.new_processor_pool vkr.Pool.new_processor_client
    open_store_with_retry vkr.Gateway.retry vkr.Storage.Connection.open_store
    vkr.Storage.Connection.migrate vkr.Metrics.Limiter.new_rate_limiter
    vkr.Metrics.Limiter.new_ticker
shutdown-closes_example =
    shutdown-closes (λ a. ok 1) (λ c. none) second_time env handler site local parts serving_parts
      events refl refl
