-- ===== src/Processor/Filters/Edge.antt =====
-- The picture that `EdgeDetect` draws.
use vkr.Prelude.{
  if◌then◌else◌, ap, ℕ, ◌+◌, ◌-◌, ◌*◌, ◌^◌, ◌<◌, ◌≤◌, ◌≡◌, refl, ◌∙◌, some, List, [], ◌∷◌, arith,
  length, length-replicate, get_elem?, true, ◌==◌, Bool-cases, inl, inr,
}
use vkr.Prelude.Int.{ℤ, pos, negsuc, ltb_ℤ, ◌+ℤ◌, ◌*ℤ◌}
use vkr.Prelude.Text.{Text}
use vkr.Processor.{Floats, at, byte_of, gray_value, gray_at}
use vkr.Processor.Loops.{Gives, Gives-bind, for_range-carries, put-Gives, put_pixel-Gives, index-lt}
use vkr.Processor.Picture.{position, is_inner, IsPicture, Writes, each_inner-IsPicture}
use vkr.Processor.Filters.{
  sobel_x, sobel_y, gray_round, add_neighbour, gradient, magnitude, edge_round, edge_detect,
}
use vkr.Processor.Filters.Total.{pixels_exact}
use vkr.Processor.Filters.Window.{
  IsNear, byte_at, window, at-byte_at, around-eq, neighbour-position,
}

-- The sum of the products of bytes with integer weights.
abbrev pub dot : ℤ → List ℕ → List ℤ → ℤ
dot sum [] weights = sum
dot sum (v ∷ vs) [] = sum
dot sum (v ∷ vs) (k ∷ ks) = dot (sum +ℤ pos v *ℤ k) vs ks

-- Sobel's two operators: the right column less the left one, and the lower row less the upper one,
-- each weighted 1, 2, 1.
abbrev to_the_right : List ℤ
to_the_right = negsuc 0 ∷ pos 0 ∷ pos 1 ∷ negsuc 1 ∷ pos 0 ∷ pos 2 ∷ negsuc 0 ∷ pos 0 ∷ pos 1 ∷ []

abbrev downwards : List ℤ
downwards = negsuc 0 ∷ negsuc 1 ∷ negsuc 0 ∷ pos 0 ∷ pos 0 ∷ pos 0 ∷ pos 1 ∷ pos 2 ∷ pos 1 ∷ []

-- The smaller of 255 and `m`.
abbrev at_most_255 : ℤ → ℤ
at_most_255 m = if ltb_ℤ m (pos 255) then m else pos 255

at_most_255_lem : (m : ℤ) → (if ltb_ℤ (pos 255) m then pos 255 else m) ≡ at_most_255 m
at_most_255_lem (pos n) = ground arith
at_most_255_lem (negsuc n) = ground arith

module _ (f : Floats) where
  open f use {of_int64, sqrt, to_int}

  -- The gray value of pixel `i`.
  abbrev pub gray_pixel : Text → ℕ → ℕ
  gray_pixel input i =
      gray_value f (byte_at input (i * 3)) (byte_at input (i * 3 + 1)) (byte_at input (i * 3 + 2))

  -- The gray values around a pixel, weighted by the two operators.
  abbrev pub sobel : Text → ℕ → ℕ → ℕ → ℤ × ℤ
  sobel input w y x =
      let values = window (λ y x. gray_pixel input (y * w + x)) y x in
      (dot (pos 0) values to_the_right, dot (pos 0) values downwards)

  -- The value of all three channels of a pixel.
  abbrev pub edge : Text → ℕ → ℕ → ℕ → ℕ → ℕ
  edge input w y x c =
      let (gx, gy) = sobel input w y x in
      byte_of (at_most_255 (to_int (sqrt (of_int64 (gx *ℤ gx +ℤ gy *ℤ gy)))))

  edge-eq :
      (input : Text) (w y x c : ℕ) → byte_of (magnitude f (sobel input w y x)) ≡ edge input w y x c
  unfolding magnitude
  edge-eq input w y x c =
      let (gx, gy) = sobel input w y x in
      ap byte_of (at_most_255_lem (to_int (sqrt (of_int64 (gx *ℤ gx +ℤ gy *ℤ gy)))))

  -- The first `i` gray values stand in the gray picture.
  abbrev IsGray : Text → ℕ → ℕ → Text → Type 0
  IsGray input n i gray =
      (length gray ≡ n) × ((j : ℕ) → j < i → get_elem? gray j ≡ some (gray_pixel input j))

  gray_at-eq :
      (input : Text) (i : ℕ)
      → i * 3 + 2 < length input
      → gray_at f input (i * 3) ≡ some (gray_pixel input i)
  unfolding gray_at
  gray_at-eq input i lt =
      let r = at-byte_at input (i * 3) (omega arith) in
      let g = at-byte_at input (i * 3 + 1) (omega arith) in
      let b = at-byte_at input (i * 3 + 2) lt in rw (r, g, b) refl

  gray_round-IsGray :
      (input : Text) (n i : ℕ) (gray : Text)
      → length input ≡ n * 3
      → i < n
      → IsGray input n i gray
      → Gives (IsGray input n (i + 1)) (gray_round f input i gray)
  unfolding gray_round
  gray_round-IsGray input n i gray len lt (gray_len, before) =
      let (out, wrote, (same, each)) = put-Gives gray i (gray_pixel input i) (omega arith) in
      (
        out,
        rw (gray_at-eq input i (omega arith)) wrote,
        (
          same ∙ gray_len,
          λ j j_lt. elim (Bool-cases (j == i)) [
            | inl here ↦ let e : j ≡ i = ground arith in rw e (each i ∙ ground arith)
            | inr there ↦ ground (arith, each j, before j)
          ],
        ),
      )

  module _ (input gray : Text) (w h : ℕ) (gray_ok : IsGray input (w * h) (w * h) gray) (y x : ℕ)
      (inner : is_inner w h y x ≡ true) where
    add_neighbour-eq :
        (a b y' x' : ℕ) (kx ky sx sy : ℤ)
        → IsNear w h y x a b y' x'
        → at (sobel_x f) (a * 3 + b) ≡ some kx
        → at (sobel_y f) (a * 3 + b) ≡ some ky
        → add_neighbour f gray w y x a b (sx, sy)
          ≡ some (
            sx +ℤ pos (gray_pixel input (y' * w + x')) *ℤ kx,
            sy +ℤ pos (gray_pixel input (y' * w + x')) *ℤ ky,
          )
    unfolding add_neighbour
    add_neighbour-eq a b y' x' kx ky sx sy near ex ey =
        let inside = index-lt w h y' x' 0 (near.2) (near.3) (omega arith) in
        let read = gray_ok.1 (y' * w + x') (omega (arith, inside)) in
        rw (neighbour-position f w y x a b y' x' (near.0, near.1), read, ex, ey) refl

    gradient-eq : gradient f gray w y x ≡ some (sobel input w y x)
    unfolding gradient
    gradient-eq =
        let bounds : (1 ≤ y) × (y + 1 < h) × (1 ≤ x) × (x + 1 < w) = ground arith in
        around-eq f (add_neighbour f gray w y x)
          (add_neighbour-eq 0 0 (y - 1) (x - 1) _ _ (pos 0) (pos 0) (omega arith) refl refl)
          (add_neighbour-eq 0 1 (y - 1) x _ _ _ _ (omega arith) refl refl)
          (add_neighbour-eq 0 2 (y - 1) (x + 1) _ _ _ _ (omega arith) refl refl)
          (add_neighbour-eq 1 0 y (x - 1) _ _ _ _ (omega arith) refl refl)
          (add_neighbour-eq 1 1 y x _ _ _ _ (omega arith) refl refl)
          (add_neighbour-eq 1 2 y (x + 1) _ _ _ _ (omega arith) refl refl)
          (add_neighbour-eq 2 0 (y + 1) (x - 1) _ _ _ _ (omega arith) refl refl)
          (add_neighbour-eq 2 1 (y + 1) x _ _ _ _ (omega arith) refl refl)
          (add_neighbour-eq 2 2 (y + 1) (x + 1) _ _ _ _ (omega arith) refl refl)

    edge_round-Writes :
        (output : Text)
        → length output ≡ w * h * 3
        → Gives (Writes w h (edge input w) y x output) (edge_round f gray w y x output)
    unfolding edge_round
    edge_round-Writes output len =
        let bounds : (y < h) × (x < w) = ground arith in
        let inside = index-lt w h y x 2 (bounds.0) (bounds.1) (omega arith) in
        let m = byte_of (magnitude f (sobel input w y x)) in
        let (out, wrote, (same, each)) =
          put_pixel-Gives output ((y * w + x) * 3) m m m (omega (arith, inside)) in
        (
          out,
          rw gradient-eq wrote,
          record {
            same_length = same;
            written =
                λ c c_lt. ground (arith, each (position w y x c)) ∙ ap some (edge-eq input w y x c);
            others = λ j apart.
                let apart₀ = apart 0 (omega arith) in
                let apart₁ = apart 1 (omega arith) in
                let apart₂ = apart 2 (omega arith) in ground (arith, each j);
          },
        )

  -- `EdgeDetect` of a frame of w * h pixels, fewer than 2 ^ 63, does not panic. The three channels of
  -- an inner pixel of the result are the magnitude of the two Sobel sums over the gray values of the
  -- nine pixels around it, at most 255; the border is black, and the size is that of the frame.
  pub edge_detect-IsPicture :
      (input : Text) (w h : ℕ)
      → length input ≡ w * h * 3
      → w * h < 2 ^ 63
      → Gives
          (λ out. (length out ≡ w * h * 3) × IsPicture w h (edge input w) out)
          (edge_detect f input (pos w) (pos h))
  unfolding edge_detect
  edge_detect-IsPicture input w h len small = rw (pixels_exact w h small) (
      Gives-bind (IsGray input (w * h) (w * h))
        (λ out. (length out ≡ w * h * 3) × IsPicture w h (edge input w) out) _ _
        (for_range-carries (IsGray input (w * h)) (gray_round f input) (w * h) 0 (w * h) _
          (omega arith) (λ i gray lo lt p. gray_round-IsGray input (w * h) i gray len lt p)
          (length-replicate (w * h) 0, λ j lt. elim lt [ ]))
        (λ gray p.
          each_inner-IsPicture w h (edge input w) f _
            (λ y x out inner out_len. edge_round-Writes input gray w h p y x inner out out_len)
            (length input) len))
