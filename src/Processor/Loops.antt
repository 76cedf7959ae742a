-- ===== src/Processor/Loops.antt =====
-- Loops over buffers that do not panic, and what they keep.
use vkr.Prelude.{
  ℕ, zero, suc, ◌+◌, ◌<◌, ◌≤◌, ◌≡◌, refl, ap, Option, some, List, [], ◌∷◌, arith, length, get_elem?,
  All, ◌>>=◌, >>=-eq-some, ◌==◌, if◌then◌else◌, ◌*◌, ◌⊎◌, inl, inr,
}
use vkr.Processor.{put, for_range, put_pixel}

-- A computation that gives a value with a property.
abbrev pub Gives {ℓ κ} : {S : Type ℓ} → (S → Type κ) → Option S → Type (ℓ ⊔ κ)
Gives {S = S} P o = (s : S) × (o ≡ some s) × P s

pub Gives-bind {ℓ κ μ ν} :
    {S : Type ℓ} {T : Type μ} (P : S → Type κ) (Q : T → Type ν) (m : Option S) (k : S → Option T)
    → Gives P m
    → ((s : S) → P s → Gives Q (k s))
    → Gives Q (m >>= k)
Gives-bind P Q m k (s, ran, p) next = rw ran (next s p)

-- The loop gives what its body carries from each round to the next; the end `j` is `lo + n`.
pub for_range-carries {ℓ κ} :
    {S : Type ℓ} (P : ℕ → S → Type κ) (body : ℕ → S → Option S) (n lo j : ℕ) (s : S)
    → lo + n ≡ j
    → ((i : ℕ) (t : S) → lo ≤ i → i < j → P i t → Gives (P (i + 1)) (body i t))
    → P lo s
    → Gives (P j) (for_range n lo body s)
unfolding for_range
for_range-carries P body zero lo j s e keep h =
    let same : lo ≡ j = omega arith in (s, refl, rw (← same) h)
for_range-carries P body (suc n) lo j s e keep h =
    Gives-bind (P (lo + 1)) (P j) (body lo s) _ (keep lo s (omega arith) (omega arith) h) λ t p.
      for_range-carries P body n (lo + 1) j t (omega arith)
        (λ i u lo_le lt q. keep i u (omega arith) lt q) p

-- The same where what is kept does not depend on the round.
pub for_range-keeps {ℓ κ} :
    {S : Type ℓ} (P : S → Type κ) (body : ℕ → S → Option S) (n lo : ℕ) (s : S)
    → ((i : ℕ) (t : S) → lo ≤ i → i < lo + n → P t → Gives P (body i t))
    → P s
    → Gives P (for_range n lo body s)
for_range-keeps P body n lo s keep h = for_range-carries (λ i. P) body n lo (lo + n) s refl keep h

module _ {ℓ} {A : Type ℓ} where
  pub at-Gives :
      (xs : List A) (i : ℕ) → i < length xs → Gives (λ (a : A). Unit {0}) (get_elem? xs i)
  at-Gives [] i h = elim h [ ]
  at-Gives (x ∷ xs) zero h = (x, refl, tt)
  at-Gives (x ∷ xs) (suc i) h = at-Gives xs i (omega arith)

  pub get_elem?-put :
      (xs ys : List A) (i j : ℕ) (v : A)
      → put xs i v ≡ some ys
      → get_elem? ys j ≡ (if j == i then some v else get_elem? xs j)
  unfolding put
  get_elem?-put [] ys i j v e = cc
  get_elem?-put (x ∷ xs) ys zero zero v e = let same : v ∷ xs ≡ ys = cc in rw (← same)
  get_elem?-put (x ∷ xs) ys zero (suc j) v e =
      let same : v ∷ xs ≡ ys = cc in rw (← same) (ground arith)
  get_elem?-put (x ∷ xs) ys (suc i) zero v e =
      let (zs, done, same) = >>=-eq-some (put xs i v) _ e in
      let same' : x ∷ zs ≡ ys = cc in rw (← same') (ground arith)
  get_elem?-put (x ∷ xs) ys (suc i) (suc j) v e =
      let (zs, done, same) = >>=-eq-some (put xs i v) _ e in
      let same' : x ∷ zs ≡ ys = cc in
      let ih = get_elem?-put xs zs i j v done in rw (← same') (ground (arith, ih))

  length-put :
      (xs : List A) (i : ℕ) (v : A)
      → i < length xs
      → Gives (λ ys. length ys ≡ length xs) (put xs i v)
  unfolding put
  length-put [] i v h = elim h [ ]
  length-put (x ∷ xs) zero v h = (v ∷ xs, refl, refl)
  length-put (x ∷ xs) (suc i) v h =
      let (ys, done, len) = length-put xs i v (omega arith) in (x ∷ ys, rw (done, put), ap suc len)

  -- A write inside a buffer changes the one element and no other, and not the length.
  pub put-Gives :
      (xs : List A) (i : ℕ) (v : A)
      → i < length xs
      → Gives
          (λ ys.
            (length ys ≡ length xs)
            × ((j : ℕ) → get_elem? ys j ≡ (if j == i then some v else get_elem? xs j)))
          (put xs i v)
  put-Gives xs i v h =
      let (ys, done, len) = length-put xs i v h in
      (ys, done, (len, λ j. get_elem?-put xs ys i j v done))

  -- The three writes of a pixel.
  pub put_pixel-Gives :
      (xs : List A) (i : ℕ) (r g b : A)
      → i + 2 < length xs
      → Gives
          (λ ys.
            (length ys ≡ length xs)
            × ((j : ℕ)
                → get_elem? ys j ≡ (
                    if j == i + 2
                    then some b
                    else if j == i + 1
                    then some g
                    else if j == i
                    then some r
                    else get_elem? xs j)))
          (put_pixel xs i r g b)
  unfolding put_pixel
  put_pixel-Gives xs i r g b h =
      let (with_r, done_r, (len_r, at_r)) = put-Gives xs i r (omega arith) in
      let (with_g, done_g, (len_g, at_g)) = put-Gives with_r (i + 1) g (omega arith) in
      let (with_b, done_b, (len_b, at_b)) = put-Gives with_g (i + 2) b (omega arith) in
      (
        with_b,
        rw (done_r, done_g) done_b,
        (omega arith, λ j. ground (arith, at_b j, at_g j, at_r j)),
      )

  -- A predicate on all elements, by their indices.
  pub All-of_get_elem? {κ} :
      (P : A → Type κ) (xs : List A) → ((j : ℕ) (a : A) → get_elem? xs j ≡ some a → P a) → All P xs
  All-of_get_elem? P [] h = tt
  All-of_get_elem? P (x ∷ xs) h = (h 0 x refl, All-of_get_elem? P xs (λ j a e. h (suc j) a e))

-- Pixels of a frame: no index leaves it, and two pixels have no channel in common.
pub index-lt : (w h y x c : ℕ) → y < h → x < w → c < 3 → (y * w + x) * 3 + c < w * h * 3
index-lt w h y x c y_lt x_lt c_lt = let row : y * w + x < h * w = grind arith in omega (arith, row)

row-lt : (w y y' x x' : ℕ) → y < y' → x < w → y * w + x < y' * w + x'
row-lt w y y' x x' h x_lt = grind arith

pub index-injective :
    (w y y' x x' c c' : ℕ)
    → x < w
    → x' < w
    → c < 3
    → c' < 3
    → (y * w + x) * 3 + c ≡ (y' * w + x') * 3 + c'
    → (y ≡ y') × (x ≡ x') × (c ≡ c')
index-injective w y y' x x' c c' x_lt x_lt' c_lt c_lt' e =
    let same : y * w + x ≡ y' * w + x' = omega arith in
    elim (cases y y') [
      | inl below ↦ absurd (omega (arith, row-lt w y y' x x' below x_lt))
      | inr (inl above) ↦ absurd (omega (arith, row-lt w y' y x' x above x_lt'))
      | inr (inr level) ↦
          let rows : y * w ≡ y' * w = ap (λ (k : ℕ). k * w) level in
          (level, omega arith, omega arith)
    ]
  where
    cases : (a b : ℕ) → (a < b) ⊎ (b < a) ⊎ (a ≡ b)
    cases a b = ground arith
