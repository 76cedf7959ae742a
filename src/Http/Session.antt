-- ===== src/Http/Session.antt =====
-- gateway/internal/http/handlers.go: registration, login, the current user and the history.
pub mod Accounts
use vkr.Prelude.{
  ℕ, ◌+◌, ◌/◌, ◌^◌, Bool, true, false, not, Option, none, some, List, [], ◌∷◌, if◌then◌else◌,
}
use vkr.Prelude.Int.{ℤ, pos, negsuc, sub_ℕ}
use vkr.Prelude.Text.{Text, str, eq_text}
use vkr.Prelude.Result.{Result, ok, err}
use vkr.Go.Strings.{cut_prefix}
use vkr.Auth.{User, TokenManager, issue, verify, hash_token}
use vkr.Storage.{create_user, authenticate, save_session, recent_runs}
use vkr.Http.{
  Request, AuthRequest, Response, Cookie, response, panic, http_error, json, user_json, auth_json,
  runs_json, Env, Handler, Input, World, not_allowed, no_storage, query_get,
}

abbrev from_cookie : Option Text → List (Text × Text) → Text
from_cookie none query = query_get (str "token") query
from_cookie (some []) query = query_get (str "token") query
from_cookie (some (c ∷ s)) query = c ∷ s

-- The header, then the cookie, then the query.
unfoldable pub extract_token : Request → Text
extract_token r = elim (cut_prefix (str "Bearer ") r.authorization) [
  | some token ↦ token
  | none ↦ from_cookie r.cookie r.query
]

-- `int(time.Until(expiry).Seconds())` at the time `now`, in nanoseconds: it rounds towards zero.
abbrev pub seconds_until : ℕ → ℕ → ℤ
seconds_until expiry now = elim (sub_ℕ expiry now) [
  | pos n ↦ pos (n / 10 ^ 9)
  | negsuc n ↦ sub_ℕ 0 ((n + 1) / 10 ^ 9)
]

module _ {F32 F64 : Type 0} (env : Env F32 F64) (h : Handler) (input : Input) where
  open env use {db, crypto, decode_auth}

  unfoldable pub user_from_request : Request → Result User
  user_from_request r = elim h.tokens [
    | none ↦ err (str "auth is not configured")
    | some tokens ↦
        if eq_text (extract_token r) []
        then err (str "authorization required")
        else verify crypto tokens input.now (extract_token r)
  ]

  -- `currentUser` answers 401 itself.
  abbrev pub with_user :
      Request → World env → (User → Response F64 × World env) → Response F64 × World env
  with_user r w k = elim (user_from_request r) [ err e ↦ (http_error e 401, w) | ok user ↦ k user ]

  -- The result of `SaveSession` is dropped; what it did to the store is not.
  abbrev pub saved : User → Text × ℕ → World env → World env
  saved user issued w =
      if h.has_store
      then record w {
        store = (save_session db user.id (hash_token crypto issued.0) issued.1 w.store).1;
      }
      else w

  unfoldable pub write_token : User → World env → Response F64 × World env
  write_token user w = elim h.tokens [
    | none ↦ (panic, w)
    | some tokens ↦ elim (issue crypto tokens input.now user) [
      | err e ↦ (http_error e 500, w)
      | ok issued ↦ (
        response 200
            (some (record { value = issued.0; max_age = seconds_until issued.1 input.finished }))
            (auth_json (record { token = issued.0; expires_at = issued.1; user = user })),
        saved user issued w,
      )
    ]
  ]

  unfoldable pub handle_register : Request → World env → Response F64 × World env
  handle_register r w =
      if not (eq_text r.method (str "POST"))
      then (http_error not_allowed 405, w)
      else if not h.has_store
      then (http_error no_storage 503, w)
      else elim (decode_auth r.body) [
        | none ↦ (http_error (str "Invalid request body") 400, w)
        | some req ↦
            let (made, store) =
              create_user db crypto input.salt req.username req.password w.store in
            elim made [
              | err e ↦ (http_error e 400, record w { store = store })
              | ok user ↦ write_token user (record w { store = store })
            ]
      ]

  unfoldable pub handle_login : Request → World env → Response F64 × World env
  handle_login r w =
      if not (eq_text r.method (str "POST"))
      then (http_error not_allowed 405, w)
      else if not h.has_store
      then (http_error no_storage 503, w)
      else elim (decode_auth r.body) [
        | none ↦ (http_error (str "Invalid request body") 400, w)
        | some req ↦ elim (authenticate db crypto req.username req.password w.store) [
          | err e ↦ (http_error e 401, w)
          | ok user ↦ write_token user w
        ]
      ]

  unfoldable pub handle_me : Request → World env → Response F64 × World env
  handle_me r w = with_user r w (λ user. (json (user_json user), w))

  unfoldable pub handle_history : Request → World env → Response F64 × World env
  handle_history r w = with_user r w λ user.
      if not h.has_store
      then (http_error no_storage 503, w)
      else elim (recent_runs db user.id (pos 30) w.store) [
        | err e ↦ (http_error e 500, w)
        | ok runs ↦ (json (runs_json runs), w)
      ]
