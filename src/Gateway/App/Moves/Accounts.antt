-- ===== src/Gateway/App/Moves/Accounts.antt =====
-- The moves of the handlers of gateway/internal/http/handlers.go that make and use accounts.
use vkr.Prelude.{ℕ, refl, ◌||◌, [], arith, inl, inr, Bool-cases, Option-cases}
use vkr.Prelude.Text.{Text, str, eq_text}
use vkr.Prelude.Result.{Result-cases}
use vkr.Auth.{User, hash_password, issue}
use vkr.Storage.{create_user, authenticate, save_session}
use vkr.Http.{Request, Env, Handler, Input, World}
use vkr.Http.Session.{write_token, saved, handle_register, handle_login, handle_me, handle_history}
use vkr.Gateway.App.Moves.{Moves, still, one, after, same, ends, add_user, add_session}

module _ {F32 F64 : Type 0} (env : Env F32 F64) (h : Handler) (input : Input) where
  saved-Moves :
      (user : User) (issued : Text × ℕ) (w : World env)
      → Moves env w (saved env h input user issued w)
  unfolding save_session
  saved-Moves user issued w = elim (Bool-cases h.has_store) [
    | inl stored ↦ rw stored (one env (add_session user.id issued.0 issued.1 refl))
    | inr none_here ↦ rw none_here still
  ]

  pub write_token-Moves :
      (user : User) (w : World env) → Moves env w (write_token env h input user w).1
  unfolding write_token
  write_token-Moves user w = elim (Option-cases h.tokens) [
    | inl missing ↦ same env (ground (arith, missing))
    | inr (tokens, given) ↦ elim (Result-cases (issue env.crypto tokens input.now user)) [
      | inr (msg, failed) ↦ same env (ground (arith, given, failed))
      | inl (issued, made) ↦ ends env (saved-Moves user issued w) (ground (arith, given, made))
    ]
  ]

  create_user-Moves :
      (name password : Text) (w : World env)
      → Moves env w
          (record w { store = (create_user env.db env.crypto input.salt name password w.store).1 })
  unfolding create_user
  create_user-Moves name password w = elim (Bool-cases (eq_text name [] || eq_text password [])) [
    | inl empty ↦ rw empty still
    | inr full ↦ elim (Result-cases (hash_password env.crypto input.salt password)) [
      | inr (msg, failed) ↦ rw (full, failed) still
      | inl (hash, hashed) ↦
          rw (full, hashed) (one env (add_user input.salt name password hash hashed refl))
    ]
  ]

  pub register-Moves :
      (r : Request) (w : World env) → Moves env w (handle_register env h input r w).1
  unfolding handle_register
  register-Moves r w = elim (Option-cases (env.decode_auth r.body)) [
    | inl bad ↦ same env (ground (arith, bad))
    | inr (req, decoded) ↦
        let made = create_user env.db env.crypto input.salt req.username req.password w.store in
        elim (Bool-cases (eq_text r.method (str "POST"))) [
          | inr other ↦ rw other still
          | inl post ↦ elim (Bool-cases h.has_store) [
            | inr none_here ↦ same env (ground (arith, post, none_here))
            | inl stored ↦ elim (Result-cases made.0) [
              | inr (msg, refused) ↦
                  ends env (create_user-Moves req.username req.password w)
                    (ground (arith, post, stored, decoded, refused))
              | inl (user, fine) ↦
                  ends env
                    (after env (create_user-Moves req.username req.password w)
                      (write_token-Moves user (record w { store = made.1 })))
                    (ground (arith, post, stored, decoded, fine))
            ]
          ]
        ]
  ]

  pub login-Moves : (r : Request) (w : World env) → Moves env w (handle_login env h input r w).1
  unfolding handle_login
  login-Moves r w = elim (Option-cases (env.decode_auth r.body)) [
    | inl bad ↦ same env (ground (arith, bad))
    | inr (req, decoded) ↦
        elim (Result-cases (authenticate env.db env.crypto req.username req.password w.store)) [
          | inr (msg, refused) ↦ same env (ground (arith, decoded, refused))
          | inl (user, known) ↦ elim (Bool-cases (eq_text r.method (str "POST"))) [
            | inr other ↦ rw other still
            | inl post ↦ elim (Bool-cases h.has_store) [
              | inr none_here ↦ same env (ground (arith, post, none_here))
              | inl stored ↦
                  ends env (write_token-Moves user w) (ground (arith, post, stored, decoded, known))
            ]
          ]
        ]
  ]

  pub me-Moves : (r : Request) (w : World env) → Moves env w (handle_me env h input r w).1
  unfolding handle_me
  me-Moves r w = same env (ground arith)

  pub history-Moves : (r : Request) (w : World env) → Moves env w (handle_history env h input r w).1
  unfolding handle_history
  history-Moves r w = same env (ground arith)
