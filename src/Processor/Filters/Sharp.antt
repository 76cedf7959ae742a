-- ===== src/Processor/Filters/Sharp.antt =====
-- The picture that `Sharpen` draws.
use vkr.Prelude.{
  ℕ, ◌+◌, ◌-◌, ◌*◌, ◌<◌, ◌≤◌, ◌≡◌, ◌≢◌, refl, ◌∙◌, some, List, [], ◌∷◌, arith, length, get_elem?,
  true, ◌==◌, if◌then◌else◌, Bool-cases, inl, inr,
}
use vkr.Prelude.Int.{pos}
use vkr.Prelude.Text.{Text}
use vkr.Processor.{Floats, at, put, for_range, f32_zero, clamp_to_byte}
use vkr.Processor.Loops.{Gives, for_range-carries, put-Gives, index-lt}
use vkr.Processor.Picture.{position, is_inner, IsPicture, Writes, each_inner-IsPicture}
use vkr.Processor.Filters.{sharpen_kernel, weigh_neighbour, sharpen_channel, sharpen}
use vkr.Processor.Filters.Window.{
  IsNear, byte_at, window, at-byte_at, around-eq, neighbour-position,
}

other_position :
    (j p v : ℕ) (out out' : Text)
    → ((i : ℕ) → get_elem? out' i ≡ (if i == p then some v else get_elem? out i))
    → j ≢ p
    → get_elem? out' j ≡ get_elem? out j
other_position j p v out out' each apart = ground (arith, each j)

next_channel :
    (w y x c c' : ℕ) (value : ℕ → ℕ) (out out' : Text)
    → ((i : ℕ)
        → get_elem? out' i ≡ (if i == position w y x c then some (value c) else get_elem? out i))
    → ((k : ℕ) → k < c → get_elem? out (position w y x k) ≡ some (value k))
    → c' < c + 1
    → get_elem? out' (position w y x c') ≡ some (value c')
next_channel w y x c c' value out out' each written lt = elim (Bool-cases (c' == c)) [
  | inl same ↦
      let here : c' ≡ c = ground arith in
      let hit : (position w y x c == position w y x c) ≡ true = ground arith in
      rw here (each (position w y x c) ∙ rw hit refl)
  | inr other ↦
      let apart : position w y x c' ≢ position w y x c = λ e. absurd (ground arith) in
      other_position _ _ (value c) out out' each apart ∙ written c' (ground arith)
]

module _ (f : Floats) where
  open f use {F32, lit, neg, of_byte, add, mul}

  -- The sum of the products of bytes with weights, in order.
  abbrev pub dot : F32 → List ℕ → List F32 → F32
  dot sum [] weights = sum
  dot sum (v ∷ vs) [] = sum
  dot sum (v ∷ vs) (k ∷ ks) = dot (add sum (mul (of_byte v) k)) vs ks

  -- The pixel itself weighs 1 + 4 k, those above, below, left and right of it -k, the corners nothing.
  abbrev cross : F32 → List F32
  cross k =
      f32_zero f
      ∷ neg k
      ∷ f32_zero f
      ∷ neg k
      ∷ add (lit 1 1) (mul (lit 4 1) k)
      ∷ neg k
      ∷ f32_zero f
      ∷ neg k
      ∷ f32_zero f
      ∷ []

  -- The value of a channel: the pixel and its neighbours, weighted by the kernel.
  abbrev pub sharpened : Text → ℕ → F32 → ℕ → ℕ → ℕ → ℕ
  sharpened input w intensity y x c =
      clamp_to_byte f
        (dot (f32_zero f) (window (λ y x. byte_at input (position w y x c)) y x) (cross intensity))

  module _ (input : Text) (w h : ℕ) (intensity : F32) (len : length input ≡ w * h * 3) (y x : ℕ)
      (inner : is_inner w h y x ≡ true) (c : ℕ) (c_lt : c < 3) where
    weigh_neighbour-eq :
        (a b y' x' : ℕ) (k sum : F32)
        → IsNear w h y x a b y' x'
        → at (sharpen_kernel f intensity) (a * 3 + b) ≡ some k
        → weigh_neighbour f input w intensity y x c a b sum
          ≡ some (add sum (mul (of_byte (byte_at input (position w y' x' c))) k))
    unfolding weigh_neighbour
    weigh_neighbour-eq a b y' x' k sum near weight =
        let inside = index-lt w h y' x' c (near.2) (near.3) c_lt in
        let read = at-byte_at input (position w y' x' c) (omega (arith, inside)) in
        rw (neighbour-position f w y x a b y' x' (near.0, near.1), read, weight) refl

    sharpen_channel-eq :
        (output : Text)
        → sharpen_channel f input w intensity y x c output
          ≡ put output (position w y x c) (sharpened input w intensity y x c)
    unfolding sharpen_channel
    sharpen_channel-eq output =
        let bounds : (1 ≤ y) × (y + 1 < h) × (1 ≤ x) × (x + 1 < w) = ground arith in
        let sum =
          around-eq f (weigh_neighbour f input w intensity y x c)
            (weigh_neighbour-eq 0 0 (y - 1) (x - 1) _ (f32_zero f) (omega arith) refl)
            (weigh_neighbour-eq 0 1 (y - 1) x _ _ (omega arith) refl)
            (weigh_neighbour-eq 0 2 (y - 1) (x + 1) _ _ (omega arith) refl)
            (weigh_neighbour-eq 1 0 y (x - 1) _ _ (omega arith) refl)
            (weigh_neighbour-eq 1 1 y x _ _ (omega arith) refl)
            (weigh_neighbour-eq 1 2 y (x + 1) _ _ (omega arith) refl)
            (weigh_neighbour-eq 2 0 (y + 1) (x - 1) _ _ (omega arith) refl)
            (weigh_neighbour-eq 2 1 (y + 1) x _ _ (omega arith) refl)
            (weigh_neighbour-eq 2 2 (y + 1) (x + 1) _ _ (omega arith) refl) in
        rw sum refl

  module _ (input : Text) (w h : ℕ) (intensity : F32) (len : length input ≡ w * h * 3) where
    -- The first `n` channels of a pixel are written, and nothing else.
    abbrev Written : ℕ → ℕ → Text → ℕ → Text → Type 0
    Written y x output n out =
        (length out ≡ length output)
        × ((c : ℕ)
            → c < n
            → get_elem? out (position w y x c) ≡ some (sharpened input w intensity y x c))
        × ((j : ℕ)
            → ((c : ℕ) → c < n → j ≢ position w y x c)
            → get_elem? out j ≡ get_elem? output j)

    sharpen_channel-Written :
        (y x c : ℕ) (output out : Text)
        → is_inner w h y x ≡ true
        → length output ≡ w * h * 3
        → c < 3
        → Written y x output c out
        → Gives (Written y x output (c + 1)) (sharpen_channel f input w intensity y x c out)
    sharpen_channel-Written y x c output out inner out_len c_lt (kept, written, others) =
        let inside = index-lt w h y x c (ground arith) (ground arith) c_lt in
        let v = sharpened input w intensity y x c in
        let (out', wrote, (kept', each)) =
          put-Gives out (position w y x c) v (omega (arith, inside)) in
        (
          out',
          sharpen_channel-eq input w h intensity len y x inner c c_lt out ∙ wrote,
          (
            kept' ∙ kept,
            λ c' c'_lt.
                next_channel w y x c c' (sharpened input w intensity y x) out out' each written
                  c'_lt,
            λ j apart.
                let here = apart c (omega arith) in
                other_position j _ v out out' each here
                ∙ others j (λ c' c'_lt. apart c' (omega arith)),
          ),
        )

    sharpen_pixel-Writes :
        (y x : ℕ) (output : Text)
        → is_inner w h y x ≡ true
        → length output ≡ w * h * 3
        → Gives
            (Writes w h (sharpened input w intensity) y x output)
            (for_range 3 0 (sharpen_channel f input w intensity y x) output)
    sharpen_pixel-Writes y x output inner out_len =
        let (out, ran, (kept, written, others)) =
          for_range-carries (Written y x output) (sharpen_channel f input w intensity y x) 3 0 3
            output refl
            (λ c out lo lt p. sharpen_channel-Written y x c output out inner out_len lt p)
            (refl, λ c lt. elim lt [ ], λ j apart. refl) in
        (out, ran, record { same_length = kept; written = written; others = others })

    -- `Sharpen` of a frame of w * h pixels does not panic. Every channel of an inner pixel of the
    -- result is the sum of that channel and those of the eight pixels around it, weighted by the
    -- kernel and clamped to a byte; the border is black, and the size is that of the frame.
    pub sharpen-IsPicture :
        Gives
          (λ out. (length out ≡ w * h * 3) × IsPicture w h (sharpened input w intensity) out)
          (sharpen f input (pos w) (pos h) intensity)
    unfolding sharpen
    sharpen-IsPicture =
        each_inner-IsPicture w h (sharpened input w intensity) f _ sharpen_pixel-Writes
          (length input) len
