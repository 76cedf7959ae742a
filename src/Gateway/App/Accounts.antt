-- ===== src/Gateway/App/Accounts.antt =====
-- Accounts outlive whatever the gateway serves: gateway/internal/http/handlers.go over
-- gateway/internal/storage/postgres.go.
use vkr.Prelude.{◌≡◌, ◌∙◌, sym, Option, some, List, All, if◌then◌else◌}
use vkr.Prelude.Text.{Text, str, eq_text, IsByte}
use vkr.Prelude.Result.{ok}
use vkr.Auth.{TokenManager, password_digest}
use vkr.Storage.{UserRow, bad_credentials}
use vkr.Storage.Accounts.{IsRelational, IsDurable, authenticate-same}
use vkr.Http.{
  Request, AuthResponse, Cookie, response, http_error, auth_json, Env, Handler, Input, World,
}
use vkr.Http.Session.{write_token, handle_register, handle_login}
use vkr.Http.Session.Accounts.{authenticate-register, login_answer}
use vkr.Gateway.App.{Site, App, Event, run}
use vkr.Gateway.App.Moves.{Move, Moves, still, next}
use vkr.Gateway.App.Moves.Serve.{run-Moves}

module _ {F32 F64 : Type 0} (env : Env F32 F64) (durable : IsDurable env.db) (name : Text)
    (row : UserRow) where
  abbrev IsThere : World env → Type 0
  IsThere w = env.db.select_user name w.store ≡ ok row

  Move-IsThere : {v w : World env} → Move env v w → IsThere v → IsThere w
  Move-IsThere (Move.take_client r pool took e) there = rw e there
  Move-IsThere (Move.fix_client i pool set e) there = rw e there
  Move-IsThere (Move.count_call u accepted e) there = rw e there
  Move-IsThere {v} (Move.add_user salt other password hash hashed e) there =
      rw e (durable.user_keeps name other hash v.store row there)
  Move-IsThere {v} (Move.add_session id token time e) there =
      rw e (durable.session_keeps name _ id time v.store row there)
  Move-IsThere {v} (Move.add_run run storable e) there =
      rw e (durable.run_keeps name run v.store row there)

  -- A row of a user stays.
  pub Moves-IsThere : {v w : World env} → Moves env v w → IsThere v → IsThere w
  Moves-IsThere still there = there
  Moves-IsThere (next ms m) there = Move-IsThere m (Moves-IsThere ms there)

module _ {F32 F64 : Type 0} (env : Env F32 F64) (h : Handler) (site : Site F32 F64)
    (first second : Input) (laws : IsRelational env.db) (durable : IsDurable env.db)
    (sha_bytes : (s : Text) → All IsByte (env.crypto.sha256 s)) where
  -- After `HandleRegister` has answered 200 for a name and a password, and after any further requests,
  -- registrations of other users and attempts to register the name again among them, and any ticks of
  -- the limiter, `HandleLogin` for the name answers as on the first day: with a new token of the user
  -- that was registered, if the password that it gets has the digest of the first under the salt, and
  -- with 401 else. The database gives back a row that was inserted, keeps the names unique and loses no
  -- row; the salt and the digests are bytes.
  pub login-run :
      (m : TokenManager) (r₁ r₂ : Request) (name p q salt : Text) (w : World env) (a : App env)
      (c : Option Cookie) (answer : AuthResponse) (es : List (Event F32))
      → h.tokens ≡ some m
      → first.salt ≡ ok salt
      → All IsByte salt
      → env.decode_auth r₁.body ≡ some (record { username = name; password = p })
      → handle_register env h first r₁ w ≡ (response 200 c (auth_json answer), a.world)
      → r₂.method ≡ str "POST"
      → env.decode_auth r₂.body ≡ some (record { username = name; password = q })
      → let later = (run env h site es a).world in
        handle_login env h second r₂ later ≡ (
          if eq_text (password_digest env.crypto salt p) (password_digest env.crypto salt q)
          then write_token env h second answer.user later
          else (http_error bad_credentials 401, later))
  login-run m r₁ r₂ name p q salt w a c answer es t salted bytes decoded₁ made post decoded₂ =
      let (known, (row, there), store) =
        authenticate-register env h first second laws sha_bytes m r₁ name p q salt w a.world c
          answer t salted bytes decoded₁ made in
      let kept = Moves-IsThere env durable name row (run-Moves env h site es a) there in
      login_answer env h first second laws sha_bytes r₂ name q (run env h site es a).world
        answer.user _ store post decoded₂
        (authenticate-same env.db env.crypto name q (run env h site es a).world.store a.world.store
            (kept ∙ sym there)
          ∙ known)
