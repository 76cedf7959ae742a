-- ===== src/Auth/Tests.antt =====
-- Runs of token.go over a toy digest, and its theorems at concrete inputs.
use vkr.Prelude.{◌*◌, ◌%◌, ◌^◌, ◌≡◌, [], ◌∷◌, ◌++◌, arith, All, length}
use vkr.Prelude.Int.{pos}
use vkr.Prelude.Text.{Text, str, IsByte}
use vkr.Go.Base64.{encode_url}
use vkr.Prelude.Result.{ok, ◌>>=◌}
use vkr.Auth.{User, TokenManager, Crypto, colon, sign, payload_of, issue, verify}
use vkr.Auth.Token.{IsSigned, verify-issue, verify-IsSigned}

-- A digest of one byte, the length of the text.
abbrev pub toy : Crypto
toy = record { hmac = λ k s. (length s % 256) ∷ []; sha256 = λ s. (length s % 256) ∷ [] }

pub toy_hmac-IsByte : (k s : Text) → All IsByte (toy.hmac k s)
toy_hmac-IsByte k s = (omega arith, tt)

pub toy_sha256-IsByte : (s : Text) → All IsByte (toy.sha256 s)
toy_sha256-IsByte s = (omega arith, tt)

abbrev pub manager : TokenManager
manager = record { secret = str "s"; ttl = 86400 * 10 ^ 9 }

abbrev pub student : User
student = record { id = pos 7; username = str "student" }

abbrev two_names : User
two_names = record { id = pos 8; username = str "a:b" }

verify-issue_example :
    (issue toy manager 0 student >>= λ issued. verify toy manager 5 issued.0) ≡ ok student
unfolding str
verify-issue_example =
    verify-issue toy toy_hmac-IsByte manager 0 5 student (omega arith) (omega arith) (omega arith)
      (omega arith)

verify-IsSigned_example :
    IsSigned toy manager 5
      (encode_url (
        payload_of student manager.ttl
        ++ colon ∷ sign toy manager (payload_of student manager.ttl)))
      student
unfolding issue
verify-IsSigned_example = verify-IsSigned toy manager 5 _ verify-issue_example
