-- ===== src/Storage.antt =====
-- gateway/internal/storage/postgres.go. PostgreSQL is an argument: a state and the statements that the
-- code sends, each with its result.
pub mod Connection
pub mod Accounts
pub mod Runs
pub mod Tests
use vkr.Prelude.{ℕ, Bool, Option, none, some, List, [], ◌∷◌, ◌||◌, leb, if◌then◌else◌}
use vkr.Prelude.Int.{ℤ, pos, ltb_ℤ}
use vkr.Prelude.Text.{Text, str, eq_text}
use vkr.Prelude.Result.{Result, ok, err}
use vkr.Auth.{User, Crypto, hash_password, check_password}

-- `processing_time_ms` is a float64, of which nothing is computed here; `created_at` a time.
pub record ProcessingRun (F64 : Type 0) : Type 0 where
  pub id : ℤ
  pub user_id : ℤ
  pub memory_mode : Text
  pub filter_name : Text
  pub width : ℤ
  pub height : ℤ
  pub frames_count : ℤ
  pub success : Bool
  pub processing_time_ms : F64
  pub error_message : Text
  pub created_at : ℕ

-- A row of `SELECT id, username, password_hash FROM users`.
pub record UserRow : Type 0 where
  pub id : ℤ
  pub username : Text
  pub password_hash : Text

-- The statements of postgres.go. A write gives back its error, if any, and the state after it.
pub record Database (F64 : Type 0) : Type 1 where
  pub State : Type 0
  pub insert_user : Text → Text → State → Result User × State
  pub select_user : Text → State → Result UserRow
  pub insert_session : ℤ → Text → ℕ → State → Option Text × State
  pub insert_run : ProcessingRun F64 → State → Option Text × State
  pub select_runs : ℤ → ℤ → State → Result (List (ProcessingRun F64))

abbrev pub no_user : User
no_user = record { id = pos 0; username = [] }

abbrev pub bad_credentials : Text
bad_credentials = str "invalid username or password"

unfoldable pub normalize_memory_mode : Text → Text
normalize_memory_mode mode =
    if eq_text mode (str "heap") || eq_text mode (str "no_arena")
    then str "no_arena"
    else str "arena"

module _ {F64 : Type 0} (db : Database F64) (crypto : Crypto) where
  open db use {State, insert_user, select_user, insert_session, insert_run, select_runs}

  -- `salt` is what the random source gives.
  unfoldable pub create_user : Result Text → Text → Text → State → Result User × State
  create_user salt username password s =
      if eq_text username [] || eq_text password []
      then (err (str "username and password are required"), s)
      else elim (hash_password crypto salt password) [
        | err e ↦ (err e, s)
        | ok hash ↦ insert_user username hash s
      ]

  unfoldable pub authenticate : Text → Text → State → Result User
  authenticate username password s = elim (select_user username s) [
    | err e ↦ err bad_credentials
    | ok row ↦
        if check_password crypto row.password_hash password
        then ok (record { id = row.id; username = row.username })
        else err bad_credentials
  ]

module _ {F64 : Type 0} (db : Database F64) where
  open db use {State, insert_session, insert_run, select_runs}

  unfoldable pub save_session : ℤ → Text → ℕ → State → Option Text × State
  save_session user_id token_hash expires_at s = insert_session user_id token_hash expires_at s

  unfoldable pub save_processing_run : ProcessingRun F64 → State → Option Text × State
  save_processing_run run s =
      insert_run (record run { memory_mode = normalize_memory_mode run.memory_mode }) s

  -- `if limit <= 0 || limit > 100 { limit = 20 }`
  unfoldable pub recent_runs : ℤ → ℤ → State → Result (List (ProcessingRun F64))
  recent_runs user_id limit s =
      select_runs user_id (if ltb_ℤ limit (pos 1) || ltb_ℤ (pos 100) limit then pos 20 else limit) s
