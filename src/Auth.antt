-- ===== src/Auth.antt =====
-- gateway/internal/auth/token.go: signed tokens and salted password hashes. HMAC-SHA256, SHA-256
-- and the random source are arguments; a time is a number of nanoseconds since 1970.
pub mod Token
pub mod Password
pub mod Tests
use vkr.Prelude.{
  ℕ, zero, suc, ◌+◌, ◌/◌, ◌^◌, Bool, false, Option, none, some, List, [], ◌∷◌, ◌++◌, ltb,
  if◌then◌else◌,
}
use vkr.Prelude.Int.{ℤ, pos, ltb_ℤ}
use vkr.Prelude.Text.{Text, str, eq_text}
use vkr.Prelude.Result.{Result, ok, err}
use vkr.Go.Strings.{split, join}
use vkr.Go.Decimal.{format_int, parse_int, Parsed, parsed}
use vkr.Go.Hex
use vkr.Go.Base64.{encode_url, decode_url}

pub record User : Type 0 where
  pub id : ℤ
  pub username : Text

-- `ttl` in nanoseconds.
pub record TokenManager : Type 0 where
  pub secret : Text
  pub ttl : ℕ

abbrev pub colon : ℕ
colon = b':'

-- `Time.Unix`: whole seconds.
abbrev pub unix : ℕ → ℕ
unix time = time / 10 ^ 9

pub new_token_manager : Text → ℕ → TokenManager
new_token_manager [] ttl = record { secret = str "diplom-local-secret"; ttl = ttl }
new_token_manager (c ∷ s) ttl = record { secret = c ∷ s; ttl = ttl }

-- `hmac.New(sha256.New, key)` over a message, and `sha256.Sum256`.
pub record Crypto : Type 0 where
  pub hmac : Text → Text → Text
  pub sha256 : Text → Text

abbrev pub payload_of : User → ℕ → Text
payload_of user expires_at =
    format_int user.id ++ colon ∷ (user.username ++ colon ∷ format_int (pos (unix expires_at)))

abbrev user_of : Parsed → Text → Result User
user_of (parsed id) username = ok (record { id = id; username = username })
user_of _ username = err (str "invalid user id")

abbrev check_expiry : ℕ → Parsed → Result User → Result User
check_expiry now (parsed expires_unix) user =
    if ltb_ℤ expires_unix (pos (unix now)) then err (str "token expired") else user
check_expiry now _ user = err (str "invalid token expiration")

abbrev pub rounds : ℕ
rounds = 10000

module _ (crypto : Crypto) where
  unfoldable pub sign : TokenManager → Text → Text
  sign m payload = Hex.encode (crypto.hmac m.secret payload)

  -- The token and the time at which it expires.
  unfoldable pub issue : TokenManager → ℕ → User → Result (Text × ℕ)
  issue m now user =
      let expires_at = now + m.ttl in
      let payload = payload_of user expires_at in
      ok (encode_url (payload ++ colon ∷ sign m payload), expires_at)

  unfoldable pub verify_parts : TokenManager → ℕ → List Text → Result User
  verify_parts m now (id ∷ username ∷ expires ∷ signature ∷ []) =
      let payload = join colon (id ∷ username ∷ expires ∷ []) in
      if eq_text signature (sign m payload)
      then check_expiry now (parse_int expires) (user_of (parse_int id) username)
      else err (str "invalid token signature")
  verify_parts m now _ = err (str "invalid token")

  unfoldable pub verify : TokenManager → ℕ → Text → Result User
  unfolding verify_parts
  verify m now token = elim (decode_url token) [
    | none ↦ err (str "invalid token encoding")
    | some raw ↦ verify_parts m now (split colon raw)
  ]

  unfoldable pub hash_token : Text → Text
  hash_token token = Hex.encode (crypto.sha256 token)

  -- The loop of `passwordDigest`, by the rounds left.
  unfoldable pub stretch : ℕ → Text → Text → Text
  stretch zero salt sum = sum
  stretch (suc rounds) salt sum = stretch rounds salt (crypto.sha256 (sum ++ salt))

  unfoldable pub password_digest : Text → Text → Text
  password_digest salt password = stretch rounds salt (crypto.sha256 (salt ++ password))

  -- The salt comes from the random source, which may fail.
  unfoldable pub hash_password : Result Text → Text → Result Text
  hash_password (err e) password = err e
  hash_password (ok salt) password =
      ok (Hex.encode salt ++ colon ∷ Hex.encode (password_digest salt password))

  abbrev compare_digest : Option Text → Option Text → Text → Bool
  compare_digest (some salt) (some expected) password =
      eq_text expected (password_digest salt password)
  compare_digest _ _ password = false

  unfoldable pub check_parts : List Text → Text → Bool
  check_parts (salt ∷ sum ∷ []) password =
      compare_digest (Hex.decode salt) (Hex.decode sum) password
  check_parts _ password = false

  unfoldable pub check_password : Text → Text → Bool
  unfolding check_parts
  check_password encoded password = check_parts (split colon encoded) password
