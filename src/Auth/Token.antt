-- ===== src/Auth/Token.antt =====
-- What the tokens of token.go guarantee.
use vkr.Prelude.{
  ℕ, ◌+◌, ◌^◌, ◌≤◌, ◌<◌, ◌≡◌, refl, ◌≢◌, ap, sym, ◌∙◌, some, List, [], ◌∷◌, ◌++◌, append_assoc,
  arith, ltb, if◌then◌else◌, length, All, All-append, Option-cases, false, inl, inr,
}
use vkr.Prelude.Int.{ℤ, pos, ltb_ℤ, Fits}
use vkr.Prelude.Text.{Text, str, eq_text_sound, eq_text_refl, IsByte, Lacks}
use vkr.Prelude.Result.{ok, err, ◌>>=◌}
use vkr.Go.Strings.{
  split, join, count, length-split, count-append, split-append, split_of_Lacks, join-split,
}
use vkr.Go.Decimal.{
  format_int, Parsed, parse_int, parsed, out_of_range, bad_syntax, parse_int-format_int,
  format_int-All,
}
use vkr.Go.Hex
use vkr.Go.Base64.{encode_url, decode_url}
use vkr.Go.Base64.RoundTrip.{decode_url-encode_url}
use vkr.Auth.{
  User, TokenManager, colon, unix, Crypto, sign, payload_of, issue, verify_parts, verify,
  check_expiry, user_of,
}

int-Lacks : (z : ℤ) → Lacks colon (format_int z)
int-Lacks z = format_int-All (λ c. c ≢ colon) (λ c lo hi. omega arith) z (omega arith)

int-IsByte : (z : ℤ) → All IsByte (format_int z)
int-IsByte z = format_int-All IsByte (λ c lo hi. omega arith) z (omega arith)

verify_parts_long :
    (crypto : Crypto) (m : TokenManager) (now : ℕ) (parts : List Text)
    → 4 < length parts
    → verify_parts crypto m now parts ≡ err (str "invalid token")
unfolding verify_parts
verify_parts_long crypto m now [] h = absurd (omega arith)
verify_parts_long crypto m now (a ∷ []) h = absurd (omega arith)
verify_parts_long crypto m now (a ∷ b ∷ []) h = absurd (omega arith)
verify_parts_long crypto m now (a ∷ b ∷ c ∷ []) h = absurd (omega arith)
verify_parts_long crypto m now (a ∷ b ∷ c ∷ d ∷ []) h = absurd (omega arith)
verify_parts_long crypto m now (a ∷ b ∷ c ∷ d ∷ e ∷ parts) h = refl

-- The second separator counts, whatever stands round it.
count-payload :
    (a b c d : Text)
    → 3 + count colon b ≤ count colon ((a ++ colon ∷ (b ++ colon ∷ c)) ++ colon ∷ d)
count-payload a b c d =
    let outer = count-append colon (a ++ colon ∷ (b ++ colon ∷ c)) (colon ∷ d) in
    let middle = count-append colon a (colon ∷ (b ++ colon ∷ c)) in
    let inner = count-append colon b (colon ∷ c) in
    unfold count in ground (arith, outer, middle, inner)

module _ (crypto : Crypto) (mac_bytes : (k s : Text) → All IsByte (crypto.hmac k s)) where
  sign-Lacks : (m : TokenManager) (s : Text) → Lacks colon (sign crypto m s)
  unfolding sign
  sign-Lacks m s = Hex.encode-Lacks colon _ (omega arith) (omega arith) (mac_bytes m.secret s)

  raw_of : TokenManager → ℕ → User → Text
  raw_of m now user =
      let payload = payload_of user (now + m.ttl) in payload ++ colon ∷ sign crypto m payload

  raw_of-IsByte :
      (m : TokenManager) (now : ℕ) (user : User)
      → All IsByte user.username
      → All IsByte (raw_of m now user)
  unfolding raw_of sign
  raw_of-IsByte m now user h =
      let sep : IsByte colon = omega arith in
      All-append IsByte _ _
        (All-append IsByte _ _ (int-IsByte user.id)
          (sep, All-append IsByte _ _ h (sep, int-IsByte _)))
        (sep, Hex.encode-IsByte _ (mac_bytes m.secret _))

  split-raw_of :
      (m : TokenManager) (now : ℕ) (user : User)
      → Lacks colon user.username
      → split colon (raw_of m now user)
        ≡ format_int user.id
          ∷ user.username
          ∷ format_int (pos (unix (now + m.ttl)))
          ∷ sign crypto m (payload_of user (now + m.ttl))
          ∷ []
  unfolding raw_of
  split-raw_of m now user h = rw (
    append_assoc,
    split-append colon (format_int user.id) _ (int-Lacks user.id),
    append_assoc,
    split-append colon user.username _ h,
    split-append colon (format_int (pos (unix (now + m.ttl)))) _ (int-Lacks _),
    split_of_Lacks colon _ (sign-Lacks m _),
  )

  -- What `issue` makes is checked part by part, whatever the name holds.
  verify-issue_parts :
      (m : TokenManager) (now later : ℕ) (user : User)
      → All IsByte user.username
      → (issue crypto m now user >>= λ issued. verify crypto m later issued.0)
        ≡ verify_parts crypto m later (split colon (raw_of m now user))
  unfolding issue verify raw_of
  verify-issue_parts m now later user h =
      rw (decode_url-encode_url _ (raw_of-IsByte m now user h), verify)

  -- A token that `Issue` makes for a user whose name has no colon is accepted by `Verify` with the
  -- same secret until its second of expiry has passed, and gives back the user's id and name; from
  -- then on it is refused as expired. The id is an int64, the name is bytes, and the expiry in
  -- seconds is below 2 ^ 63.
  pub verify-issue :
      (m : TokenManager) (now later : ℕ) (user : User)
      → All IsByte user.username
      → Lacks colon user.username
      → Fits (2 ^ 63) user.id
      → unix (now + m.ttl) < 2 ^ 63
      → (issue crypto m now user >>= λ issued. verify crypto m later issued.0)
        ≡ (if ltb (unix (now + m.ttl)) (unix later) then err (str "token expired") else ok user)
  unfolding verify_parts join
  verify-issue m now later user h no_colon id_fits expiry_fits =
      verify-issue_parts m now later user h
      ∙ rw
          (
            split-raw_of m now user no_colon,
            eq_text_refl (sign crypto m _),
            parse_int-format_int user.id id_fits,
            parse_int-format_int (pos (unix (now + m.ttl))) (expiry_fits, omega arith),
          )
          (ground arith)

  raw_of-parts :
      (m : TokenManager) (now : ℕ) (user : User)
      → 0 < count colon user.username
      → 4 < length (split colon (raw_of m now user))
  unfolding raw_of
  raw_of-parts m now user h = omega (
    arith,
    length-split colon (raw_of m now user),
    count-payload (format_int user.id) user.username (format_int (pos (unix (now + m.ttl))))
        (sign crypto m (payload_of user (now + m.ttl))),
  )

  -- A token that `Issue` makes for a user whose name holds a colon is never accepted by `Verify`: it
  -- has too many parts, at every time and whatever the id.
  pub verify-issue-colon :
      (m : TokenManager) (now later : ℕ) (user : User)
      → All IsByte user.username
      → 0 < count colon user.username
      → (issue crypto m now user >>= λ issued. verify crypto m later issued.0)
        ≡ err (str "invalid token")
  verify-issue-colon m now later user h some_colon =
      verify-issue_parts m now later user h
      ∙ verify_parts_long crypto m later _ (raw_of-parts m now user some_colon)

  raw_of-ne-nil : (m : TokenManager) (now : ℕ) (user : User) → raw_of m now user ≢ []
  raw_of-ne-nil m now user e =
      let some_colon =
        count-payload (format_int user.id) user.username (format_int (pos (unix (now + m.ttl))))
          (sign crypto m (payload_of user (now + m.ttl))) in
      let none_left : count colon (raw_of m now user) ≡ 0 = unfold count in rw e in
      unfold raw_of in omega (arith, some_colon, none_left)

  -- A token is never empty.
  pub issue-ne-nil :
      (m : TokenManager) (now : ℕ) (user : User) (token : Text) (expires_at : ℕ)
      → All IsByte user.username
      → issue crypto m now user ≡ ok (token, expires_at)
      → token ≢ []
  unfolding issue raw_of
  issue-ne-nil m now user token expires_at h e empty =
      let raw = raw_of m now user in
      let made : encode_url raw ≡ [] = cc in
      let read = rw made at (decode_url-encode_url raw (raw_of-IsByte m now user h)) in
      let nothing : decode_url [] ≡ some [] = unfold decode_url in refl in
      raw_of-ne-nil m now user (cc)

-- The parts of a token that was made with the manager's secret and has not expired.
pub record IsSigned (crypto : Crypto) (m : TokenManager) (now : ℕ) (token : Text) (user : User)
    : Type 0 where
  pub id : Text
  pub expires : Text
  pub expiry : ℤ
  pub decoded :
      decode_url token
      ≡ some (
          join colon (
            id
            ∷ user.username
            ∷ expires
            ∷ sign crypto m (join colon (id ∷ user.username ∷ expires ∷ []))
            ∷ []))
  pub id_read : parse_int id ≡ parsed user.id
  pub expiry_read : parse_int expires ≡ parsed expiry
  pub not_expired : ltb_ℤ expiry (pos (unix now)) ≡ false

module _ (crypto : Crypto) (m : TokenManager) (now : ℕ) {user : User} where
  check_expiry-eq-ok :
      (id expires : Parsed) (name : Text)
      → check_expiry now expires (user_of id name) ≡ ok user
      → (expiry : ℤ) × (expires ≡ parsed expiry)
        × (ltb_ℤ expiry (pos (unix now)) ≡ false)
        × (id ≡ parsed user.id)
        × (name ≡ user.username)
  check_expiry-eq-ok (parsed id) (parsed expiry) name e =
      (expiry, refl, ground arith, ground arith, ground arith)
  check_expiry-eq-ok (out_of_range z) (parsed expiry) name e = ground arith
  check_expiry-eq-ok bad_syntax (parsed expiry) name e = ground arith
  check_expiry-eq-ok id (out_of_range z) name e = cc
  check_expiry-eq-ok id bad_syntax name e = cc

  verify_parts-IsSigned :
      (token raw : Text) (parts : List Text)
      → decode_url token ≡ some raw
      → split colon raw ≡ parts
      → verify_parts crypto m now parts ≡ ok user
      → IsSigned crypto m now token user
  unfolding verify_parts
  verify_parts-IsSigned token raw (a ∷ b ∷ c ∷ d ∷ []) decoded cut e =
      let payload = join colon (a ∷ b ∷ c ∷ []) in
      let signed : d ≡ sign crypto m payload = eq_text_sound d _ (ground arith) in
      let (expiry, expiry_read, in_time, id_read, same) =
        check_expiry-eq-ok (parse_int a) (parse_int c) b (ground arith) in
      record {
        id = a;
        expires = c;
        expiry = expiry;
        decoded =
            rw (← same, ← signed)
              (decoded ∙ ap some (sym (join-split colon raw) ∙ ap (join colon) cut));
        id_read = id_read;
        expiry_read = expiry_read;
        not_expired = in_time;
      }
  verify_parts-IsSigned token raw [] decoded cut e = cc
  verify_parts-IsSigned token raw (a ∷ []) decoded cut e = cc
  verify_parts-IsSigned token raw (a ∷ b ∷ []) decoded cut e = cc
  verify_parts-IsSigned token raw (a ∷ b ∷ c ∷ []) decoded cut e = cc
  verify_parts-IsSigned token raw (a ∷ b ∷ c ∷ d ∷ x ∷ parts) decoded cut e = cc

  -- Whatever `Verify` accepts is the base64 of a user id, a name, an expiry that has not passed, and
  -- the signature of these three under the manager's secret; the user that it returns has that id
  -- and that name.
  pub verify-IsSigned :
      (token : Text) → verify crypto m now token ≡ ok user → IsSigned crypto m now token user
  unfolding verify
  verify-IsSigned token e = elim (Option-cases (decode_url token)) [
    | inl bad ↦ absurd (cc (rw (bad, verify) at e))
    | inr (raw, good) ↦ verify_parts-IsSigned token raw _ good refl (rw (good, verify) at e)
  ]
