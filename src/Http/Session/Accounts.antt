-- ===== src/Http/Session/Accounts.antt =====
-- Registration, login and the token that they give, from end to end.
use vkr.Prelude.{
  ℕ, Bool, refl, ◌+◌, ◌^◌, ◌<◌, ◌≡◌, ◌≢◌, ap, ◌∙◌, true, Option, some, [], ◌++◌, arith, ltb,
  if◌then◌else◌, All, Bool-cases, inl, inr,
}
use vkr.Prelude.Int.{Fits}
use vkr.Prelude.Text.{Text, str, eq_text, eq_text_iff, IsByte, Lacks, eq_text_complete}
use vkr.Prelude.Result.{ok, err, Result-cases, ◌>>=◌}
use vkr.Go.Strings.{cut_prefix, cut_prefix-append, count}
use vkr.Auth.{User, TokenManager, colon, unix, issue, verify, hash_token, password_digest}
use vkr.Auth.Token.{verify-issue, verify-issue-colon, issue-ne-nil}
use vkr.Storage.{UserRow, bad_credentials, create_user, authenticate, save_session}
use vkr.Storage.Accounts.{
  IsRelational, authenticate-create_user, authenticate-same, create_user-row,
}
use vkr.Http.{
  Request, AuthRequest, AuthResponse, Cookie, response, http_error, auth_json, Env, Handler, Input,
  World,
}
use vkr.Http.Session.{
  extract_token, user_from_request, write_token, saved, handle_register, handle_login,
}

module _ {F32 F64 : Type 0} (env : Env F32 F64) (h : Handler) (input : Input) where
  write_token-eq-200 :
      (m : TokenManager) (user : User) (w w' : World env) (c : Option Cookie) (a : AuthResponse)
      → h.tokens ≡ some m
      → write_token env h input user w ≡ (response 200 c (auth_json a), w')
      → (issue env.crypto m input.now user ≡ ok (a.token, a.expires_at))
        × (a.user ≡ user)
        × (w' ≡ saved env h input user (a.token, a.expires_at) w)
  unfolding write_token issue
  write_token-eq-200 m user w w' c a t e = ground arith

  extract_token-bearer :
      (r : Request) (token : Text)
      → r.authorization ≡ str "Bearer " ++ token
      → extract_token r ≡ token
  unfolding extract_token
  extract_token-bearer r token auth =
      let cut : cut_prefix (str "Bearer ") r.authorization ≡ some token =
        ap (cut_prefix (str "Bearer ")) auth ∙ cut_prefix-append (str "Bearer ") token in
      rw (cut, extract_token)

  user_from_request-bearer :
      (m : TokenManager) (r : Request) (token : Text)
      → h.tokens ≡ some m
      → token ≢ []
      → r.authorization ≡ str "Bearer " ++ token
      → user_from_request env h input r ≡ verify env.crypto m input.now token
  unfolding user_from_request
  user_from_request-bearer m r token t full auth =
      let read = extract_token-bearer r token auth in ground (arith, eq_text_iff token [])

  select_user-saved :
      (name : Text) (user : User) (issued : Text × ℕ) (w : World env)
      → IsRelational env.db
      → env.db.select_user name (saved env h input user issued w).store
        ≡ env.db.select_user name w.store
  unfolding save_session
  select_user-saved name user issued w laws = elim (Bool-cases h.has_store) [
    | inl store ↦
        rw store (laws.session_users user.id (hash_token env.crypto issued.0) name issued.1 w.store)
    | inr nil ↦ rw nil refl
  ]

-- A token that a handler has just given is good for the requests that bear it, with the same secret.
module _ {F32 F64 : Type 0} (env : Env F32 F64) (h : Handler) (given later : Input)
    (mac_bytes : (k s : Text) → All IsByte (env.crypto.hmac k s)) (m : TokenManager) (user : User)
    (w w' : World env) (c : Option Cookie) (a : AuthResponse) (r : Request) where
  verify-given :
      h.tokens ≡ some m
      → All IsByte user.username
      → write_token env h given user w ≡ (response 200 c (auth_json a), w')
      → r.authorization ≡ str "Bearer " ++ a.token
      → user_from_request env h later r
        ≡ (issue env.crypto m given.now user >>= λ issued. verify env.crypto m later.now issued.0)
  verify-given t bytes written auth =
      let (issued, same, saved_w) = write_token-eq-200 env h given m user w w' c a t written in
      let full =
        issue-ne-nil env.crypto mac_bytes m given.now user a.token a.expires_at bytes issued in
      user_from_request-bearer env h later m r a.token t full auth ∙ rw issued

  -- The token in an answer of `HandleRegister` or `HandleLogin`, sent back as a bearer token, makes
  -- every handler see the user that it was made for, until its second of expiry has passed; after
  -- that the user is refused. The name is bytes without a colon, the id an int64, and the expiry in
  -- seconds below 2 ^ 63.
  pub user_from_request-write_token :
      h.tokens ≡ some m
      → All IsByte user.username
      → Lacks colon user.username
      → Fits (2 ^ 63) user.id
      → unix (given.now + m.ttl) < 2 ^ 63
      → write_token env h given user w ≡ (response 200 c (auth_json a), w')
      → r.authorization ≡ str "Bearer " ++ a.token
      → user_from_request env h later r ≡ (
          if ltb (unix (given.now + m.ttl)) (unix later.now)
          then err (str "token expired")
          else ok user)
  user_from_request-write_token t bytes no_colon id_fits expiry_fits written auth =
      verify-given t bytes written auth
      ∙ verify-issue env.crypto mac_bytes m given.now later.now user bytes no_colon id_fits
          expiry_fits

  -- The token of a user whose name holds a colon is given all the same, with status 200, but no
  -- request that bears it is ever let in.
  pub user_from_request-colon :
      h.tokens ≡ some m
      → All IsByte user.username
      → 0 < count colon user.username
      → write_token env h given user w ≡ (response 200 c (auth_json a), w')
      → r.authorization ≡ str "Bearer " ++ a.token
      → user_from_request env h later r ≡ err (str "invalid token")
  user_from_request-colon t bytes some_colon written auth =
      verify-given t bytes written auth
      ∙ verify-issue-colon env.crypto mac_bytes m given.now later.now user bytes some_colon

module _ {F32 F64 : Type 0} (env : Env F32 F64) (h : Handler) (first second : Input)
    (laws : IsRelational env.db) (sha_bytes : (s : Text) → All IsByte (env.crypto.sha256 s)) where
  register-eq-200 :
      (m : TokenManager) (r : Request) (req : AuthRequest) (w w' : World env) (c : Option Cookie)
      (a : AuthResponse)
      → h.tokens ≡ some m
      → env.decode_auth r.body ≡ some req
      → handle_register env h first r w ≡ (response 200 c (auth_json a), w')
      → (s : env.db.State) × (create_user env.db env.crypto first.salt req.username req.password
            w.store
          ≡ (ok a.user, s))
        × (w' ≡ saved env h first a.user (a.token, a.expires_at) (record w { store = s }))
        × (h.has_store ≡ true)
  unfolding handle_register
  register-eq-200 m r req w w' c a t decoded e =
      let made = create_user env.db env.crypto first.salt req.username req.password w.store in
      elim (Result-cases made.0) [
        | inl (user, fine) ↦
            let written : write_token env h first user (record w { store = made.1 })
                ≡ (response 200 c (auth_json a), w') =
              ground arith in
            let (issued, same, saved_w) =
              write_token-eq-200 env h first m user (record w { store = made.1 }) w' c a t
                written in
            (made.1, rw same (ap (λ x. (x, made.1)) fine), rw same saved_w, ground arith)
        | inr (msg, refused) ↦ absurd (ground arith)
      ]

  -- What `Authenticate` answers for a name after `HandleRegister` has answered 200 for it, and that the
  -- row of the name is there.
  pub authenticate-register :
      (m : TokenManager) (r : Request) (name p q salt : Text) (w w' : World env) (c : Option Cookie)
      (a : AuthResponse)
      → h.tokens ≡ some m
      → first.salt ≡ ok salt
      → All IsByte salt
      → env.decode_auth r.body ≡ some (record { username = name; password = p })
      → handle_register env h first r w ≡ (response 200 c (auth_json a), w')
      → (authenticate env.db env.crypto name q w'.store ≡ (
          if eq_text (password_digest env.crypto salt p) (password_digest env.crypto salt q)
          then ok a.user
          else err bad_credentials))
        × ((row : UserRow) × (env.db.select_user name w'.store ≡ ok row))
        × (h.has_store ≡ true)
  authenticate-register m r name p q salt w w' c a t salted bytes decoded made =
      let (s, created, saved_w, store) = register-eq-200 m r _ w w' c a t decoded made in
      let (row, there) =
        create_user-row env.db env.crypto laws first.salt name p w.store s a.user created in
      let known =
        authenticate-create_user env.db env.crypto laws sha_bytes salt name p q w.store s a.user
          bytes (rw salted at created) in
      let kept =
        select_user-saved env h first name a.user (a.token, a.expires_at) (record w { store = s })
          laws in
      let same : env.db.select_user name w'.store ≡ env.db.select_user name s = rw saved_w kept in
      (
        authenticate-same env.db env.crypto name q w'.store s same ∙ known,
        (row, same ∙ there),
        store,
      )

  -- `HandleLogin` where `Authenticate` answers as it does after a registration.
  pub login_answer :
      (r : Request) (name q : Text) (w : World env) (user : User) (matches : Bool)
      → h.has_store ≡ true
      → r.method ≡ str "POST"
      → env.decode_auth r.body ≡ some (record { username = name; password = q })
      → authenticate env.db env.crypto name q w.store
        ≡ (if matches then ok user else err bad_credentials)
      → handle_login env h second r w
        ≡ (if matches then write_token env h second user w else (http_error bad_credentials 401, w))
  unfolding handle_login
  login_answer r name q w user matches store post decoded answer =
      ground (arith, eq_text_complete r.method (str "POST"), answer)

  -- After `HandleRegister` has answered 200 for a name and a password, `HandleLogin` for the same name
  -- gives a token for the same user, as a new token of that user, if the password that it gets has the
  -- digest of the first under the salt, and else answers 401; the password itself is accepted.
  pub login-register :
      (m : TokenManager) (r₁ r₂ : Request) (name p q salt : Text) (w w' : World env)
      (c : Option Cookie) (a : AuthResponse)
      → h.tokens ≡ some m
      → first.salt ≡ ok salt
      → All IsByte salt
      → env.decode_auth r₁.body ≡ some (record { username = name; password = p })
      → handle_register env h first r₁ w ≡ (response 200 c (auth_json a), w')
      → r₂.method ≡ str "POST"
      → env.decode_auth r₂.body ≡ some (record { username = name; password = q })
      → handle_login env h second r₂ w' ≡ (
          if eq_text (password_digest env.crypto salt p) (password_digest env.crypto salt q)
          then write_token env h second a.user w'
          else (http_error bad_credentials 401, w'))
  login-register m r₁ r₂ name p q salt w w' c a t salted bytes decoded₁ made post decoded₂ =
      let (answer, there, store) =
        authenticate-register m r₁ name p q salt w w' c a t salted bytes decoded₁ made in
      login_answer r₂ name q w' a.user _ store post decoded₂ answer
