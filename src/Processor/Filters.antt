-- ===== src/Processor/Filters.antt =====
-- `Grayscale`, `Sharpen` and `EdgeDetect` of processor-go/cmd/server/main.go.
pub mod Total
pub mod Inner
pub mod Window
pub mod Sharp
pub mod Edge
use vkr.Prelude.{
  ℕ, suc, ◌+◌, ◌-◌, ◌*◌, ◌%◌, Option, none, some, List, [], ◌∷◌, length, replicate, if◌then◌else◌,
  ◌>>=◌,
}
use vkr.Prelude.Int.{ℤ, pos, negsuc, pos_part, ltb_ℤ, ◌+ℤ◌, ◌*ℤ◌, int64}
use vkr.Prelude.Text.{Text}
use vkr.Processor.{
  Floats, at, put, make, for_range, put_pixel, channels, byte_of, clamp_to_byte, f32_zero, gray_at,
}

module _ (f : Floats) where
  open f use {F32, lit, of_byte, add, mul, neg, of_int64, sqrt, to_int}

  -- One pixel: its three channels become its gray value.
  unfoldable pub grayscale_round : Text → ℕ → Text → Option Text
  grayscale_round input i output = do
    gray ← gray_at f input (i * 3)
    put_pixel output (i * 3) gray gray gray

  unfoldable pub grayscale : Text → ℤ → ℤ → Option Text
  grayscale input width height =
      for_range (pos_part (int64 (width *ℤ height))) 0 (grayscale_round input)
        (replicate (length input) 0)

  -- for ky := -1; ky <= 1; ky++ { for kx := -1; kx <= 1; kx++ { body } }, with `a` for ky + 1 and `b`
  -- for kx + 1.
  unfoldable pub around {ℓ} : {S : Type ℓ} → (ℕ → ℕ → S → Option S) → S → Option S
  around body = for_range 3 0 (λ a. for_range 3 0 (body a))

  -- for y := 1; y < height-1; y++ { for x := 1; x < width-1; x++ { body } }
  unfoldable pub each_inner {ℓ} : {S : Type ℓ} → ℤ → ℤ → (ℕ → ℕ → S → Option S) → S → Option S
  each_inner width height body =
      for_range (pos_part height - 2) 1 (λ y. for_range (pos_part width - 2) 1 (body y))

  abbrev pub sharpen_kernel : F32 → List F32
  sharpen_kernel intensity =
      f32_zero f
      ∷ neg intensity
      ∷ f32_zero f
      ∷ neg intensity
      ∷ add (lit 1 1) (mul (lit 4 1) intensity)
      ∷ neg intensity
      ∷ f32_zero f
      ∷ neg intensity
      ∷ f32_zero f
      ∷ []

  -- The pixel that is `a - 1` rows and `b - 1` columns away.
  abbrev pub neighbour : ℕ → ℕ → ℕ → ℕ → ℕ → ℕ
  neighbour width y x a b = (y + a - 1) * width + (x + b - 1)

  -- One summand: channel `c` of a neighbour with its weight.
  unfoldable pub weigh_neighbour : Text → ℕ → F32 → ℕ → ℕ → ℕ → ℕ → ℕ → F32 → Option F32
  weigh_neighbour input width intensity y x c a b sum = do
    v ← at input (neighbour width y x a b * channels + c)
    weight ← at (sharpen_kernel intensity) (a * 3 + b)
    some (add sum (mul (of_byte v) weight))

  unfoldable pub sharpen_channel : Text → ℕ → F32 → ℕ → ℕ → ℕ → Text → Option Text
  sharpen_channel input width intensity y x c output = do
    sum ← around (weigh_neighbour input width intensity y x c) (f32_zero f)
    put output ((y * width + x) * channels + c) (clamp_to_byte f sum)

  unfoldable pub sharpen : Text → ℤ → ℤ → F32 → Option Text
  sharpen input width height intensity =
      each_inner width height
        (λ y x. for_range channels 0 (sharpen_channel input (pos_part width) intensity y x))
        (replicate (length input) 0)

  abbrev pub sobel_x : List ℤ
  sobel_x = negsuc 0 ∷ pos 0 ∷ pos 1 ∷ negsuc 1 ∷ pos 0 ∷ pos 2 ∷ negsuc 0 ∷ pos 0 ∷ pos 1 ∷ []

  abbrev pub sobel_y : List ℤ
  sobel_y = negsuc 0 ∷ negsuc 1 ∷ negsuc 0 ∷ pos 0 ∷ pos 0 ∷ pos 0 ∷ pos 1 ∷ pos 2 ∷ pos 1 ∷ []

  -- `gray[i]` of the gray picture.
  unfoldable pub gray_round : Text → ℕ → Text → Option Text
  gray_round input i gray = do v ← gray_at f input (i * 3); put gray i v

  -- A neighbour's part in the two gradients at a pixel.
  unfoldable pub add_neighbour : Text → ℕ → ℕ → ℕ → ℕ → ℕ → ℤ × ℤ → Option (ℤ × ℤ)
  add_neighbour gray width y x a b (gx, gy) = do
    pixel ← at gray (neighbour width y x a b)
    sx ← at sobel_x (a * 3 + b)
    sy ← at sobel_y (a * 3 + b)
    some (gx +ℤ pos pixel *ℤ sx, gy +ℤ pos pixel *ℤ sy)

  unfoldable pub gradient : Text → ℕ → ℕ → ℕ → Option (ℤ × ℤ)
  gradient gray width y x = around (add_neighbour gray width y x) (pos 0, pos 0)

  -- `int(math.Sqrt(float64(gx*gx + gy*gy)))`, at most 255.
  unfoldable pub magnitude : ℤ × ℤ → ℤ
  magnitude (gx, gy) =
      let m = to_int (sqrt (of_int64 (gx *ℤ gx +ℤ gy *ℤ gy))) in
      if ltb_ℤ (pos 255) m then pos 255 else m

  unfoldable pub edge_round : Text → ℕ → ℕ → ℕ → Text → Option Text
  edge_round gray width y x output = do
    g ← gradient gray width y x
    put_pixel output ((y * width + x) * channels) (byte_of (magnitude g)) (byte_of (magnitude g))
        (byte_of (magnitude g))

  unfoldable pub edge_detect : Text → ℤ → ℤ → Option Text
  edge_detect input width height = do
    blank ← make (int64 (width *ℤ height)) 0
    gray ← for_range (pos_part (int64 (width *ℤ height))) 0 (gray_round input) blank
    each_inner width height (edge_round gray (pos_part width)) (replicate (length input) 0)
