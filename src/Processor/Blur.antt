-- ===== src/Processor/Blur.antt =====
-- `GaussianBlur` of processor-go/cmd/server/main.go, with the kernel buffer that the pool gives it.
-- Sizes are those of frames below 2 ^ 63 bytes: the index products do not wrap.
pub mod Total
pub mod Paint
pub mod Exact
use vkr.Prelude.{
  ℕ, suc, ◌+◌, ◌-◌, ◌*◌, ◌/◌, ◌%◌, ◌<◌, ◌≡◌, Bool, Option, none, some, List, [], ◌∷◌, length,
  replicate, ltb, leb, ◌==◌, if◌then◌else◌, ◌>>=◌,
}
use vkr.Prelude.Int.{ℤ, pos, negsuc, pos_part, ltb_ℤ, sub_ℕ, ◌*ℤ◌, int64}
use vkr.Prelude.Text.{Text}
use vkr.Processor.{Floats, at, put, make, for_range, put_pixel, channels, clamp_to_byte, f32_zero}

abbrev pub kernel_capacity : ℕ
kernel_capacity = 31

-- `v | 1` of an int.
abbrev pub or_one : ℤ → ℤ
or_one (pos n) = if n % 2 == 0 then pos (n + 1) else pos n
or_one (negsuc n) = if n % 2 == 0 then negsuc n else negsuc (n - 1)

-- Between 3 and 31.
unfoldable pub clamp_size : ℤ → ℕ
clamp_size size =
    if ltb_ℤ size (pos 3)
    then 3
    else if ltb_ℤ (pos kernel_capacity) size
    then kernel_capacity
    else pos_part size

module _ (f : Floats) where
  open f use {
    F32, lit, of_byte, of_int, add, mul, div, neg, widen, narrow, of_int64, mul64, ceil, exp,
    to_int,
  }

  -- `int(math.Ceil(float64(radius)*6)) | 1`, clamped.
  unfoldable pub kernel_size : F32 → ℕ
  unfolding clamp_size
  kernel_size radius = clamp_size (or_one (to_int (ceil (mul64 (widen radius) (of_int64 (pos 6))))))

  -- The kernel so far and its sum.
  abbrev pub Kernel : Type 0
  Kernel = List F32 × F32

  -- One round of the loop that fills the kernel.
  unfoldable pub fill_round : F32 → ℕ → ℕ → Kernel → Option Kernel
  fill_round sigma2 half i (kernel, sum) =
      let x = of_int (sub_ℕ i half) in
      let v = narrow (exp (widen (div (mul (neg x) x) sigma2))) in
      do filled ← put kernel i v; some (filled, add sum v)

  -- One round of the loop that divides it by its sum.
  unfoldable pub normalize_round : F32 → ℕ → List F32 → Option (List F32)
  normalize_round sum i kernel = do v ← at kernel i; put kernel i (div v sum)

  -- `kernel` is the whole buffer, of which the first `size` elements are generated.
  unfoldable pub generate_gaussian_kernel : List F32 → ℕ → F32 → Option (List F32)
  generate_gaussian_kernel kernel size sigma = do
    filled ←
        for_range size 0 (fill_round (mul (mul (lit 2 1) sigma) sigma) (size / 2))
          (kernel, f32_zero f)
    for_range size 0 (normalize_round filled.1) filled.0

  abbrev pub Sums : Type 0
  Sums = F32 × F32 × F32

  -- `kx := x - half + k`, kept between 0 and `limit - 1`.
  unfoldable pub clamp_index : ℕ → ℕ → ℕ → ℕ → ℕ
  clamp_index limit x half k =
      let kx = if ltb (x + k) half then 0 else x + k - half in
      if leb limit kx then limit - 1 else kx

  -- `sumR += r * w; sumG += g * w; sumB += b * w`
  unfoldable pub weigh : Option F32 → Option F32 → Option F32 → F32 → Sums → Option Sums
  weigh red green blue weight sums = do
    r ← red
    g ← green
    b ← blue
    some (add sums.0 (mul r weight), add sums.1 (mul g weight), add sums.2 (mul b weight))

  -- Adds the pixel at `idx`, weighted, unless it lies beyond the buffer.
  unfoldable pub add_pixel : List F32 → ℕ → F32 → Sums → Option Sums
  add_pixel buf idx weight sums =
      if ltb (idx + 2) (length buf)
      then weigh (at buf idx) (at buf (idx + 1)) (at buf (idx + 2)) weight sums
      else some sums

  -- One round of the loops over the kernel.
  unfoldable pub convolve_round : List F32 → List F32 → (ℕ → ℕ) → ℕ → Sums → Option Sums
  convolve_round buf kernel index k sums = do
    weight ← at kernel k
    add_pixel buf (index k) weight sums

  -- The sums over the kernel, of the pixels that `index` gives.
  unfoldable pub convolve : List F32 → List F32 → ℕ → (ℕ → ℕ) → Option Sums
  convolve buf kernel size index =
      for_range size 0 (convolve_round buf kernel index) (f32_zero f, f32_zero f, f32_zero f)

  abbrev pub bytes_of : Text → List F32
  bytes_of [] = []
  bytes_of (b ∷ s) = of_byte b ∷ bytes_of s

  -- One pixel of the horizontal pass; the input is read as floats.
  unfoldable pub horizontal : List F32 → List F32 → ℕ → ℕ → ℕ → ℕ → List F32 → Option (List F32)
  horizontal input kernel size width y x temp = do
    sums ←
        convolve input kernel size (λ k. (y * width + clamp_index width x (size / 2) k) * channels)
    let out_idx = (y * width + x) * channels
    (if ltb (out_idx + 2) (length temp)
        then put_pixel temp out_idx sums.0 sums.1 sums.2
        else some temp)

  -- One pixel of the vertical pass.
  unfoldable pub vertical : List F32 → List F32 → ℕ → ℕ → ℕ → ℕ → ℕ → Text → Option Text
  vertical temp kernel size width height y x output = do
    sums ←
        convolve temp kernel size (λ k. (clamp_index height y (size / 2) k * width + x) * channels)
    let out_idx = (y * width + x) * channels
    (if ltb (out_idx + 2) (length output)
        then put_pixel output out_idx (clamp_to_byte f sums.0) (clamp_to_byte f sums.1)
            (clamp_to_byte f sums.2)
        else some output)

  -- for y { for x { body } }
  unfoldable pub each_pixel {ℓ} : {S : Type ℓ} → ℕ → ℕ → (ℕ → ℕ → S → Option S) → S → Option S
  each_pixel width height body = for_range height 0 (λ y. for_range width 0 (body y))

  -- The result and the kernel buffer, which goes back to the pool.
  unfoldable pub gaussian_blur : Text → ℤ → ℤ → F32 → List F32 → Option (Text × List F32)
  gaussian_blur input width height radius buffer =
      let size = kernel_size radius in
      let w = pos_part width in
      let h = pos_part height in
      do
        output ← make (int64 (int64 (width *ℤ height) *ℤ pos channels)) 0
        temp ← make (int64 (int64 (width *ℤ height) *ℤ pos channels)) (f32_zero f)
        kernel ← generate_gaussian_kernel buffer size radius
        blurred ← each_pixel w h (horizontal (bytes_of input) kernel size w) temp
        result ← each_pixel w h (vertical blurred kernel size w h) output
        some (result, kernel)
