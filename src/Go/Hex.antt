-- ===== src/Go/Hex.antt =====
-- `hex.EncodeToString` and `hex.DecodeString`.
use vkr.Prelude.{
  ℕ, ◌+◌, ◌-◌, ◌*◌, ◌/◌, ◌%◌, ◌<◌, ◌≡◌, refl, ◌≢◌, ◌&&◌, Option, none, some, [], ◌∷◌, arith, ltb,
  leb, if◌then◌else◌, ◌>>=◌, All,
}
use vkr.Prelude.Text.{Text, IsByte, Lacks}

unfoldable pub hex_digit : ℕ → ℕ
hex_digit d = if ltb d 10 then b'0' + d else b'a' + (d - 10)

-- Both cases of the letters are accepted.
unfoldable pub from_hex_digit : ℕ → Option ℕ
from_hex_digit c =
    if leb b'0' c && leb c b'9'
    then some (c - b'0')
    else if leb b'a' c && leb c b'f'
    then some (c - b'a' + 10)
    else if leb b'A' c && leb c b'F'
    then some (c - b'A' + 10)
    else none

unfoldable pub encode : Text → Text
encode [] = []
encode (b ∷ s) = hex_digit (b / 16) ∷ hex_digit (b % 16) ∷ encode s

-- An odd length and a byte that is no digit are errors.
unfoldable pub decode : Text → Option Text
decode [] = some []
decode (a ∷ []) = none
decode (a ∷ b ∷ s) = do
  hi ← from_hex_digit a
  lo ← from_hex_digit b
  rest ← decode s
  some ((hi * 16 + lo) ∷ rest)

from_hex_digit-hex_digit : (d : ℕ) → d < 16 → from_hex_digit (hex_digit d) ≡ some d
unfolding from_hex_digit hex_digit
from_hex_digit-hex_digit d h = ground arith

decode-encode_byte :
    (b : ℕ) (s : Text)
    → IsByte b
    → decode (encode (b ∷ s)) ≡ (decode (encode s) >>= λ rest. some (b ∷ rest))
unfolding encode decode
decode-encode_byte b s h =
    let hi = from_hex_digit-hex_digit (b / 16) (omega arith) in
    let lo = from_hex_digit-hex_digit (b % 16) (omega arith) in
    let whole : b / 16 * 16 + b % 16 ≡ b = omega arith in rw (hi, lo, whole)

pub decode-encode : (s : Text) → All IsByte s → decode (encode s) ≡ some s
decode-encode [] h = unfold decode encode in refl
decode-encode (b ∷ s) (hb, hs) = rw (decode-encode_byte b s hb, decode-encode s hs)

hex_digit-ne : (sep d : ℕ) → b'9' < sep → sep < b'A' → d < 16 → hex_digit d ≢ sep
unfolding hex_digit
hex_digit-ne sep d lo hi k = ground arith

-- No colon, for one, is in an encoding.
pub encode-Lacks :
    (sep : ℕ) (s : Text) → b'9' < sep → sep < b'A' → All IsByte s → Lacks sep (encode s)
unfolding encode
encode-Lacks sep [] lo hi h = tt
encode-Lacks sep (b ∷ s) lo hi (hb, hs) = (
  hex_digit-ne sep (b / 16) lo hi (omega arith),
  (hex_digit-ne sep (b % 16) lo hi (omega arith), encode-Lacks sep s lo hi hs),
)

hex_digit-IsByte : (d : ℕ) → d < 16 → IsByte (hex_digit d)
unfolding hex_digit
hex_digit-IsByte d h = ground arith

pub encode-IsByte : (s : Text) → All IsByte s → All IsByte (encode s)
unfolding encode
encode-IsByte [] h = tt
encode-IsByte (b ∷ s) (hb, hs) = (
  hex_digit-IsByte (b / 16) (omega arith),
  (hex_digit-IsByte (b % 16) (omega arith), encode-IsByte s hs),
)
