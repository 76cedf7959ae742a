-- ===== src/Go/Base64.antt =====
-- `base64.RawURLEncoding` (no padding) and `base64.StdEncoding` (padded), not strict: line breaks
-- are skipped and trailing bits are not looked at.
pub mod RoundTrip
use vkr.Prelude.{
  ℕ, ◌+◌, ◌-◌, ◌*◌, ◌/◌, ◌%◌, ◌≡◌, refl, ◌&&◌, ◌||◌, Option, none, some, List, [], ◌∷◌, ◌++◌, ltb,
  leb, ◌==◌, if◌then◌else◌, ◌>>=◌,
}
use vkr.Prelude.Text.{Text, str}

-- The two bytes that the alphabets differ in: the 62nd and the 63rd.
pub record Alphabet : Type 0 where
  pub plus : ℕ
  pub slash : ℕ

abbrev pub url : Alphabet
url = record { plus = b'-'; slash = b'_' }

abbrev pub std : Alphabet
std = record { plus = b'+'; slash = b'/' }

abbrev pub padding : ℕ
padding = b'='

unfoldable pub letter : Alphabet → ℕ → ℕ
letter a d =
    if ltb d 26
    then b'A' + d
    else if ltb d 52
    then b'a' + (d - 26)
    else if ltb d 62
    then b'0' + (d - 52)
    else if d == 62
    then a.plus
    else a.slash

unfoldable pub from_letter : Alphabet → ℕ → Option ℕ
from_letter a c =
    if leb b'A' c && leb c b'Z'
    then some (c - b'A')
    else if leb b'a' c && leb c b'z'
    then some (c - b'a' + 26)
    else if leb b'0' c && leb c b'9'
    then some (c - b'0' + 52)
    else if c == a.plus
    then some 62
    else if c == a.slash
    then some 63
    else none

-- Line breaks are dropped wherever they stand.
unfoldable pub skip_breaks : Text → Text
skip_breaks [] = []
skip_breaks (c ∷ s) = if c == b'\n' || c == b'\r' then skip_breaks s else c ∷ skip_breaks s

module _ (a : Alphabet) where
  unfoldable pub quad : ℕ → ℕ → ℕ → ℕ → Option Text
  quad c d e f = do
    x ← from_letter a c
    y ← from_letter a d
    z ← from_letter a e
    w ← from_letter a f
    some ((x * 4 + y / 16) ∷ (y % 16 * 16 + z / 4) ∷ (z % 4 * 64 + w) ∷ [])

  unfoldable pub triple : ℕ → ℕ → ℕ → Option Text
  triple c d e = do
    x ← from_letter a c
    y ← from_letter a d
    z ← from_letter a e
    some ((x * 4 + y / 16) ∷ (y % 16 * 16 + z / 4) ∷ [])

  unfoldable pub pair : ℕ → ℕ → Option Text
  pair c d = do x ← from_letter a c; y ← from_letter a d; some ((x * 4 + y / 16) ∷ [])

  -- `tail` is what stands for one or two bytes at the end.
  unfoldable pub encode_with : (ℕ → Text) → (ℕ → ℕ → Text) → Text → Text
  encode_with one two [] = []
  encode_with one two (p ∷ []) = one p
  encode_with one two (p ∷ q ∷ []) = two p q
  encode_with one two (p ∷ q ∷ r ∷ s) =
      letter a (p / 4)
      ∷ letter a (p % 4 * 16 + q / 16)
      ∷ letter a (q % 16 * 4 + r / 64)
      ∷ letter a (r % 64)
      ∷ encode_with one two s

  abbrev pub last_one : ℕ → Text
  last_one p = letter a (p / 4) ∷ letter a (p % 4 * 16) ∷ []

  abbrev pub last_two : ℕ → ℕ → Text
  last_two p q = letter a (p / 4) ∷ letter a (p % 4 * 16 + q / 16) ∷ letter a (q % 16 * 4) ∷ []

  -- Four letters at a time; two or three may be left over, one may not.
  unfoldable pub decode_raw : Text → Option Text
  decode_raw [] = some []
  decode_raw (c ∷ []) = none
  decode_raw (c ∷ d ∷ []) = pair c d
  decode_raw (c ∷ d ∷ e ∷ []) = triple c d e
  decode_raw (c ∷ d ∷ e ∷ f ∷ s) = do head ← quad c d e f; rest ← decode_raw s; some (head ++ rest)

  -- The last four letters may end in one or two paddings, and nothing stands behind these.
  unfoldable pub decode_padded : Text → Option Text
  decode_padded [] = some []
  decode_padded (c ∷ d ∷ e ∷ f ∷ []) =
      if e == padding && f == padding
      then pair c d
      else if f == padding
      then triple c d e
      else quad c d e f
  decode_padded (c ∷ d ∷ e ∷ f ∷ s) = do
    head ← quad c d e f
    rest ← decode_padded s
    some (head ++ rest)
  decode_padded _ = none

unfoldable pub encode_url : Text → Text
unfolding encode_with
encode_url = encode_with url (last_one url) (last_two url)

unfoldable pub decode_url : Text → Option Text
unfolding decode_raw skip_breaks
decode_url s = decode_raw url (skip_breaks s)

unfoldable pub encode_std : Text → Text
unfolding encode_with
encode_std =
    encode_with std (λ p. last_one std p ++ padding ∷ padding ∷ [])
      (λ p q. last_two std p q ++ padding ∷ [])

unfoldable pub decode_std : Text → Option Text
unfolding decode_padded skip_breaks
decode_std s = decode_padded std (skip_breaks s)

std_test :
    (encode_std (str "light w") ≡ str "bGlnaHQgdw==")
    × (decode_std (str "bGlnaA==") ≡ some (str "ligh"))
unfolding encode_std decode_std letter from_letter quad pair triple str
std_test = (refl, refl)

bad_padding :
    (decode_std (str "bGl=aA==") ≡ none) × (decode_std (str "bGln\naA==") ≡ some (str "ligh"))
unfolding encode_std decode_std letter from_letter quad pair triple str
bad_padding = (refl, refl)

url_test :
    (encode_url (str "l?~>") ≡ str "bD9-Pg") × (decode_url (str "bD9-Pg") ≡ some (str "l?~>"))
unfolding encode_url decode_url letter from_letter quad pair triple str
url_test = (refl, refl)
