-- ===== src/Storage/Accounts.antt =====
-- What the accounts of postgres.go promise, from what PostgreSQL promises of the statements.
use vkr.Prelude.{ℕ, ◌≡◌, refl, ◌||◌, [], arith, All, Bool-cases, inl, inr, if◌then◌else◌}
use vkr.Prelude.Int.{ℤ}
use vkr.Prelude.Text.{Text, str, eq_text, IsByte}
use vkr.Prelude.Result.{Result, ok, err, Result-cases}
use vkr.Auth.{User, Crypto, password_digest, hash_password}
use vkr.Auth.Password.{check_password-hash_password}
use vkr.Storage.{ProcessingRun, UserRow, Database, bad_credentials, create_user, authenticate}

-- `username` is unique, a statement that fails changes nothing, and a row that was inserted is found.
pub record IsRelational {F64 : Type 0} (db : Database F64) : Type 0 where
  pub insert_select :
      (name hash : Text) (s t : db.State) (user : User)
      → db.insert_user name hash s ≡ (ok user, t)
      → (user.username ≡ name)
        × (db.select_user name t
            ≡ ok (record { id = user.id; username = name; password_hash = hash }))
  pub insert_unique :
      (name hash : Text) (s : db.State) (row : UserRow)
      → db.select_user name s ≡ ok row
      → (e : Text) × (db.insert_user name hash s ≡ (err e, s))
  pub session_users :
      (id : ℤ) (hash name : Text) (time : ℕ) (s : db.State)
      → db.select_user name (db.insert_session id hash time s).1 ≡ db.select_user name s

-- No statement of the code updates or deletes a row: what was inserted stays.
pub record IsDurable {F64 : Type 0} (db : Database F64) : Type 0 where
  pub user_keeps :
      (name other hash : Text) (s : db.State) (row : UserRow)
      → db.select_user name s ≡ ok row
      → db.select_user name (db.insert_user other hash s).1 ≡ ok row
  pub session_keeps :
      (name hash : Text) (id : ℤ) (time : ℕ) (s : db.State) (row : UserRow)
      → db.select_user name s ≡ ok row
      → db.select_user name (db.insert_session id hash time s).1 ≡ ok row
  pub run_keeps :
      (name : Text) (run : ProcessingRun F64) (s : db.State) (row : UserRow)
      → db.select_user name s ≡ ok row
      → db.select_user name (db.insert_run run s).1 ≡ ok row

module _ {F64 : Type 0} (db : Database F64) (crypto : Crypto) where
  -- `Authenticate` has one error: an unknown name and a wrong password cannot be told apart.
  pub authenticate-err :
      (name password : Text) (s : db.State) (e : Text)
      → authenticate db crypto name password s ≡ err e
      → e ≡ bad_credentials
  unfolding authenticate
  authenticate-err name password s e h = elim (Result-cases (db.select_user name s)) [
    | inl (row, found) ↦ ground arith
    | inr (msg, missing) ↦ ground arith
  ]

  create_user-eq-ok :
      (salt : Result Text) (name p : Text) (s t : db.State) (user : User)
      → create_user db crypto salt name p s ≡ (ok user, t)
      → (hash : Text) × (hash_password crypto salt p ≡ ok hash)
        × (db.insert_user name hash s ≡ (ok user, t))
  unfolding create_user
  create_user-eq-ok salt name p s t user made =
      elim (Bool-cases (eq_text name [] || eq_text p [])) [
        | inl empty ↦ absurd (cc (rw empty at made))
        | inr full ↦ elim (Result-cases (hash_password crypto salt p)) [
          | inl (hash, hashed) ↦ (hash, hashed, rw (hashed, create_user) at (rw full at made))
          | inr (e, failed) ↦ absurd (cc (rw failed at (rw full at made)))
        ]
      ]

  -- `Authenticate` asks the database for the row of the name, and for nothing else.
  pub authenticate-same :
      (name q : Text) (s t : db.State)
      → db.select_user name s ≡ db.select_user name t
      → authenticate db crypto name q s ≡ authenticate db crypto name q t
  unfolding authenticate
  authenticate-same name q s t e = rw (authenticate, e) refl

  -- The row of a user that was made.
  pub create_user-row :
      (laws : IsRelational db) (salt : Result Text) (name p : Text) (s t : db.State) (user : User)
      → create_user db crypto salt name p s ≡ (ok user, t)
      → (row : UserRow) × (db.select_user name t ≡ ok row)
  create_user-row laws salt name p s t user made =
      let (hash, hashed, inserted) = create_user-eq-ok salt name p s t user made in
      (_, (laws.insert_select name hash s t user inserted).1)

  module _ (laws : IsRelational db) (sha_bytes : (s : Text) → All IsByte (crypto.sha256 s)) where
    -- After `CreateUser` has made a user, `Authenticate` with the same name gives back that user for
    -- every password with the same digest under the salt, the user's own among them, and refuses every
    -- other.
    pub authenticate-create_user :
        (salt name p q : Text) (s t : db.State) (user : User)
        → All IsByte salt
        → create_user db crypto (ok salt) name p s ≡ (ok user, t)
        → authenticate db crypto name q t ≡ (
            if eq_text (password_digest crypto salt p) (password_digest crypto salt q)
            then ok user
            else err bad_credentials)
    unfolding authenticate
    authenticate-create_user salt name p q s t user h made =
        let (hash, hashed, inserted) = create_user-eq-ok (ok salt) name p s t user made in
        let (same_name, found) = laws.insert_select name hash s t user inserted in
        let checked = rw hashed at (check_password-hash_password crypto sha_bytes salt p q h) in
        rw (found, authenticate) (ground (arith, checked))

    -- A name that is taken cannot be registered again, and the attempt changes nothing.
    pub create_user_taken :
        (salt : Result Text) (name p : Text) (s : db.State) (row : UserRow)
        → db.select_user name s ≡ ok row
        → (e : Text) × (create_user db crypto salt name p s ≡ (err e, s))
    unfolding create_user
    create_user_taken salt name p s row h = elim (Bool-cases (eq_text name [] || eq_text p [])) [
      | inl empty ↦ (str "username and password are required", rw (empty, create_user))
      | inr full ↦ elim (Result-cases (hash_password crypto salt p)) [
        | inl (hash, hashed) ↦
            let (e, refused) = laws.insert_unique name hash s row h in
            (e, rw (full, create_user, hashed) refused)
        | inr (e, failed) ↦ (e, rw (full, create_user, failed))
      ]
    ]
