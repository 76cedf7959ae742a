-- ===== src/Go/Base64/RoundTrip.antt =====
-- Every byte sequence is read back from its base64 encoding.
use vkr.Prelude.{
  ℕ, ◌+◌, ◌*◌, ◌/◌, ◌%◌, ◌<◌, ◌≡◌, refl, ◌≢◌, some, [], ◌∷◌, ◌++◌, arith, All, append-nil,
}
use vkr.Prelude.Text.{Text, IsByte}
use vkr.Go.Base64.{
  Alphabet, url, std, padding, letter, from_letter, skip_breaks, quad, triple, pair, encode_with,
  last_one, last_two, decode_raw, decode_padded, encode_url, decode_url, encode_std, decode_std,
}

-- A byte that the decoder does not skip.
abbrev IsKept : ℕ → Type 0
IsKept c = (c ≢ b'\n') × (c ≢ b'\r')

-- What the proofs need of an alphabet.
record IsSound (a : Alphabet) : Type 0 where
  read : (d : ℕ) → d < 64 → from_letter a (letter a d) ≡ some d
  kept : (d : ℕ) → d < 64 → IsKept (letter a d)
  plain : (d : ℕ) → d < 64 → letter a d ≢ padding

url-IsSound : IsSound url
unfolding letter from_letter
url-IsSound = record {
  read = λ d h. ground arith;
  kept = λ d h. ground arith;
  plain = λ d h. ground arith;
}

std-IsSound : IsSound std
unfolding letter from_letter
std-IsSound = record {
  read = λ d h. ground arith;
  kept = λ d h. ground arith;
  plain = λ d h. ground arith;
}

skip_breaks_lem : (s : Text) → All IsKept s → skip_breaks s ≡ s
unfolding skip_breaks
skip_breaks_lem [] h = refl
skip_breaks_lem (c ∷ s) (hc, hs) = ground (arith, skip_breaks_lem s hs)

module _ (a : Alphabet) (sound : IsSound a) where
  pair-letter :
      (p : ℕ) → IsByte p → pair a (letter a (p / 4)) (letter a (p % 4 * 16)) ≡ some (p ∷ [])
  unfolding pair
  pair-letter p h =
      let exact : p / 4 * 4 + p % 4 * 16 / 16 ≡ p = omega arith in
      rw (sound.read (p / 4) (omega arith), sound.read (p % 4 * 16) (omega arith), exact)

  triple-letter :
      (p q : ℕ)
      → IsByte p
      → IsByte q
      → triple a (letter a (p / 4)) (letter a (p % 4 * 16 + q / 16)) (letter a (q % 16 * 4))
        ≡ some (p ∷ q ∷ [])
  unfolding triple
  triple-letter p q h k =
      let first : p / 4 * 4 + (p % 4 * 16 + q / 16) / 16 ≡ p = omega arith in
      let second : (p % 4 * 16 + q / 16) % 16 * 16 + q % 16 * 4 / 4 ≡ q = omega arith in
      rw (
        sound.read (p / 4) (omega arith),
        sound.read (p % 4 * 16 + q / 16) (omega arith),
        sound.read (q % 16 * 4) (omega arith),
        first,
        second,
      )

  quad-letter :
      (p q r : ℕ)
      → IsByte p
      → IsByte q
      → IsByte r
      → quad a
          (letter a (p / 4))
          (letter a (p % 4 * 16 + q / 16))
          (letter a (q % 16 * 4 + r / 64))
          (letter a (r % 64))
        ≡ some (p ∷ q ∷ r ∷ [])
  unfolding quad
  quad-letter p q r h k l =
      let first : p / 4 * 4 + (p % 4 * 16 + q / 16) / 16 ≡ p = omega arith in
      let second : (p % 4 * 16 + q / 16) % 16 * 16 + (q % 16 * 4 + r / 64) / 4 ≡ q = omega arith in
      let third : (q % 16 * 4 + r / 64) % 4 * 64 + r % 64 ≡ r = omega arith in
      rw (
        sound.read (p / 4) (omega arith),
        sound.read (p % 4 * 16 + q / 16) (omega arith),
        sound.read (q % 16 * 4 + r / 64) (omega arith),
        sound.read (r % 64) (omega arith),
        first,
        second,
        third,
      )

  decode_raw-encode_with :
      (s : Text) → All IsByte s → decode_raw a (encode_with a (last_one a) (last_two a) s) ≡ some s
  unfolding decode_raw encode_with
  decode_raw-encode_with [] h = refl
  decode_raw-encode_with (p ∷ []) (h, _) = pair-letter p h
  decode_raw-encode_with (p ∷ q ∷ []) (h, (k, _)) = triple-letter p q h k
  decode_raw-encode_with (p ∷ q ∷ r ∷ s) (h, (k, (l, hs))) =
      rw (quad-letter p q r h k l, decode_raw-encode_with s hs)

  -- The letters of an encoding, whatever stands for its end.
  encode_with-All :
      (P : ℕ → Type 0) (one : ℕ → Text) (two : ℕ → ℕ → Text) (s : Text)
      → ((d : ℕ) → d < 64 → P (letter a d))
      → ((p : ℕ) → IsByte p → All P (one p))
      → ((p q : ℕ) → IsByte p → IsByte q → All P (two p q))
      → All IsByte s
      → All P (encode_with a one two s)
  unfolding encode_with
  encode_with-All P one two [] each end₁ end₂ h = tt
  encode_with-All P one two (p ∷ []) each end₁ end₂ (h, _) = end₁ p h
  encode_with-All P one two (p ∷ q ∷ []) each end₁ end₂ (h, (k, _)) = end₂ p q h k
  encode_with-All P one two (p ∷ q ∷ r ∷ s) each end₁ end₂ (h, (k, (l, hs))) = (
    each (p / 4) (omega arith),
    (
      each (p % 4 * 16 + q / 16) (omega arith),
      (
        each (q % 16 * 4 + r / 64) (omega arith),
        (each (r % 64) (omega arith), encode_with-All P one two s each end₁ end₂ hs),
      ),
    ),
  )

  decode_padded-quad :
      (c d e f : ℕ) (s head rest : Text)
      → f ≢ padding
      → quad a c d e f ≡ some head
      → decode_padded a s ≡ some rest
      → decode_padded a (c ∷ d ∷ e ∷ f ∷ s) ≡ some (head ++ rest)
  unfolding decode_padded
  decode_padded-quad c d e f [] head rest last h k = ground (arith, append-nil head)
  decode_padded-quad c d e f (x ∷ s) head rest last h k = rw (h, k)

  decode_padded-encode_with :
      (s : Text)
      → All IsByte s
      → decode_padded a (
          encode_with a
            (λ p. last_one a p ++ padding ∷ padding ∷ [])
            (λ p q. last_two a p q ++ padding ∷ [])
            s)
        ≡ some s
  unfolding encode_with
  decode_padded-encode_with [] h = unfold decode_padded in refl
  decode_padded-encode_with (p ∷ []) (h, _) = unfold decode_padded in pair-letter p h
  decode_padded-encode_with (p ∷ q ∷ []) (h, (k, _)) =
      let full = (sound.plain (q % 16 * 4) (omega arith)) in
      let read = triple-letter p q h k in unfold decode_padded in ground arith
  decode_padded-encode_with (p ∷ q ∷ r ∷ s) (h, (k, (l, hs))) =
      decode_padded-quad _ _ _ _ _ (p ∷ q ∷ r ∷ []) s (sound.plain (r % 64) (omega arith))
        (quad-letter p q r h k l) (decode_padded-encode_with s hs)

url-no_breaks : (s : Text) → All IsByte s → All IsKept (encode_url s)
unfolding encode_url
url-no_breaks s h =
    let k = url-IsSound.kept in
    encode_with-All url url-IsSound IsKept (last_one url) (last_two url) s k
      (λ p i. (k (p / 4) (omega arith), (k (p % 4 * 16) (omega arith), tt)))
      (λ p q i j. (
        k (p / 4) (omega arith),
        (k (p % 4 * 16 + q / 16) (omega arith), (k (q % 16 * 4) (omega arith), tt)),
      ))
      h

std-no_breaks : (s : Text) → All IsByte s → All IsKept (encode_std s)
unfolding encode_std
std-no_breaks s h =
    let k = std-IsSound.kept in
    let pad : IsKept padding = omega arith in
    encode_with-All std std-IsSound IsKept _ _ s k
      (λ p i. (k (p / 4) (omega arith), (k (p % 4 * 16) (omega arith), (pad, (pad, tt)))))
      (λ p q i j. (
        k (p / 4) (omega arith),
        (k (p % 4 * 16 + q / 16) (omega arith), (k (q % 16 * 4) (omega arith), (pad, tt))),
      ))
      h

-- Every byte sequence is read back from its unpadded encoding.
pub decode_url-encode_url : (s : Text) → All IsByte s → decode_url (encode_url s) ≡ some s
unfolding decode_url encode_url
decode_url-encode_url s h =
    rw (skip_breaks_lem _ (url-no_breaks s h)) (decode_raw-encode_with url url-IsSound s h)

-- Every byte sequence is read back from its padded encoding.
pub decode_std-encode_std : (s : Text) → All IsByte s → decode_std (encode_std s) ≡ some s
unfolding decode_std encode_std
decode_std-encode_std s h =
    rw (skip_breaks_lem _ (std-no_breaks s h)) (decode_padded-encode_with std std-IsSound s h)
