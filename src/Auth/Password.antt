-- ===== src/Auth/Password.antt =====
-- What the password hashes of token.go guarantee.
use vkr.Prelude.{ℕ, zero, suc, ◌≡◌, ◌≢◌, length, refl, false, List, [], ◌∷◌, arith, All}
use vkr.Prelude.Text.{Text, eq_text, IsByte}
use vkr.Prelude.Result.{ok, ◌>>=◌}
use vkr.Go.Strings.{split, count, length-split, split-append, split_of_Lacks}
use vkr.Go.Hex
use vkr.Auth.{
  colon, Crypto, stretch, rounds, password_digest, hash_password, check_parts, check_password,
}

check_parts-false :
    (crypto : Crypto) (parts : List Text) (q : Text)
    → length parts ≢ 2
    → check_parts crypto parts q ≡ false
unfolding check_parts
check_parts-false crypto [] q h = refl
check_parts-false crypto (a ∷ []) q h = refl
check_parts-false crypto (a ∷ b ∷ []) q h = absurd (h refl)
check_parts-false crypto (a ∷ b ∷ c ∷ parts) q h = refl

module _ (crypto : Crypto) (sha_bytes : (s : Text) → All IsByte (crypto.sha256 s)) where
  stretch-IsByte :
      (n : ℕ) (salt sum : Text) → All IsByte sum → All IsByte (stretch crypto n salt sum)
  unfolding stretch
  stretch-IsByte zero salt sum h = h
  stretch-IsByte (suc n) salt sum h = stretch-IsByte n salt _ (sha_bytes _)

  password_digest-IsByte : (salt p : Text) → All IsByte (password_digest crypto salt p)
  unfolding password_digest
  password_digest-IsByte salt p = stretch-IsByte rounds salt _ (sha_bytes _)

  -- `CheckPassword` on what `HashPassword` made of one password accepts another exactly when the two
  -- have the same digest under the salt; so the password itself is accepted.
  pub check_password-hash_password :
      (salt p q : Text)
      → All IsByte salt
      → (hash_password crypto (ok salt) p >>= λ encoded. ok (check_password crypto encoded q))
        ≡ ok (eq_text (password_digest crypto salt p) (password_digest crypto salt q))
  unfolding check_password hash_password
  check_password-hash_password salt p q h =
      let sum = password_digest crypto salt p in
      let bytes = password_digest-IsByte salt p in
      rw (
        split-append colon _ _ (Hex.encode-Lacks colon salt (omega arith) (omega arith) h),
        split_of_Lacks colon _ (Hex.encode-Lacks colon sum (omega arith) (omega arith) bytes),
        Hex.decode-encode salt h,
        Hex.decode-encode sum bytes,
      )

-- Without a colon, or with more than one, a stored hash accepts no password.
pub check_password-false :
    (crypto : Crypto) (encoded q : Text)
    → count colon encoded ≢ 1
    → check_password crypto encoded q ≡ false
unfolding check_password
check_password-false crypto encoded q h =
    check_parts-false crypto (split colon encoded) q (omega (arith, length-split colon encoded))
