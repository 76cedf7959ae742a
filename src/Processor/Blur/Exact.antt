-- ===== src/Processor/Blur/Exact.antt =====
-- `GaussianBlur` against a description of each of its pixels: a weighted sum over the rows around it
-- of weighted sums over the columns, where a row or a column beyond the frame is the nearest one.
use vkr.Prelude.{
  ◌-◌, leb, if◌then◌else◌, ℕ, zero, suc, ◌+◌, ◌*◌, ◌/◌, ◌^◌, ◌<◌, ◌≤◌, ◌≡◌, refl, ap, ◌∙◌, true,
  some, none, List, [], ◌∷◌, arith, length, length-replicate, get_elem?, ltb,
}
use vkr.Prelude.Int.{pos}
use vkr.Prelude.Text.{Text}
use vkr.Processor.{Floats, at, put_pixel, clamp_to_byte, f32_zero}
use vkr.Processor.Loops.{Gives, for_range-carries, index-lt}
use vkr.Processor.Picture.{position}
use vkr.Processor.Filters.Window.{byte_at}
use vkr.Processor.Filters.Total.{pixels_exact}
use vkr.Processor.Blur.{
  kernel_size, generate_gaussian_kernel, clamp_index, weigh, add_pixel, convolve_round, convolve,
  Sums, bytes_of, horizontal, vertical, gaussian_blur,
}
use vkr.Processor.Blur.Total.{kernel_size-bounds, generate_gaussian_kernel-Gives}
use vkr.Processor.Blur.Paint.{Paints, IsPainted, put_pixel-Paints, each_pixel-IsPainted}

-- The element at an index, `a` beyond the end.
abbrev elem : {A : Type 0} → A → List A → ℕ → A
elem a xs i = elim (get_elem? xs i) [ none ↦ a | some x ↦ x ]

at-elem : {A : Type 0} (a : A) (xs : List A) (i : ℕ) → i < length xs → at xs i ≡ some (elem a xs i)
at-elem a [] i lt = elim lt [ ]
at-elem a (x ∷ xs) zero lt = refl
at-elem a (x ∷ xs) (suc i) lt = at-elem a xs i (omega arith)

elem-eq :
    {A : Type 0} (a : A) (xs : List A) (i : ℕ) (x : A) → get_elem? xs i ≡ some x → elem a xs i ≡ x
elem-eq a xs i x e = rw (elem, e) refl

module _ (f : Floats) where
  open f use {F32, of_byte, add, mul}

  clamp_index-lt : (limit x half k : ℕ) → x < limit → clamp_index f limit x half k < limit
  unfolding clamp_index
  clamp_index-lt limit x half k lt = ground arith

  -- v 0 * k 0 + ... + v (n - 1) * k (n - 1), in this order.
  abbrev pub total : (ℕ → F32) → (ℕ → F32) → ℕ → F32
  total v k zero = f32_zero f
  total v k (suc n) = add (total v k n) (mul (v n) (k n))

  total-cong :
      (v v' k : ℕ → F32) (n : ℕ) → ((i : ℕ) → i < n → v i ≡ v' i) → total v k n ≡ total v' k n
  total-cong v v' k zero same = refl
  total-cong v v' k (suc n) same =
      cc (total-cong v v' k n (λ i lt. same i (omega arith)), same n (omega arith))

  length-bytes_of : (s : Text) → length (bytes_of f s) ≡ length s
  length-bytes_of [] = refl
  length-bytes_of (b ∷ s) = ap suc (length-bytes_of s)

  elem-bytes_of :
      (s : Text) (i : ℕ) → i < length s → elem (f32_zero f) (bytes_of f s) i ≡ of_byte (byte_at s i)
  elem-bytes_of [] i lt = elim lt [ ]
  elem-bytes_of (b ∷ s) zero lt = refl
  elem-bytes_of (b ∷ s) (suc i) lt = elem-bytes_of s i (omega arith)

  same_pixel :
      {A : Type 0} (out : List A) (i : ℕ) {r g b r' g' b' : A}
      → r ≡ r'
      → g ≡ g'
      → b ≡ b'
      → put_pixel out i r g b ≡ put_pixel out i r' g' b'
  same_pixel out i er eg eb = cc

  -- The sums of the loop over the kernel, for the three channels.
  abbrev sums : List F32 → List F32 → (ℕ → ℕ) → ℕ → Sums f
  sums buf kernel index n = (
    total (λ k. elem (f32_zero f) buf (index k)) (elem (f32_zero f) kernel) n,
    total (λ k. elem (f32_zero f) buf (index k + 1)) (elem (f32_zero f) kernel) n,
    total (λ k. elem (f32_zero f) buf (index k + 2)) (elem (f32_zero f) kernel) n,
  )

  convolve_round-eq :
      (buf kernel : List F32) (index : ℕ → ℕ) (k : ℕ) (s : Sums f)
      → k < length kernel
      → index k + 2 < length buf
      → s ≡ sums buf kernel index k
      → convolve_round f buf kernel index k s ≡ some (sums buf kernel index (suc k))
  unfolding convolve_round add_pixel weigh
  convolve_round-eq buf kernel index k s k_lt lt e =
      let inside : ltb (index k + 2) (length buf) ≡ true = ground arith in
      let weight = at-elem (f32_zero f) kernel k k_lt in
      let red = at-elem (f32_zero f) buf (index k) (omega (arith, lt)) in
      let green = at-elem (f32_zero f) buf (index k + 1) (omega (arith, lt)) in
      let blue = at-elem (f32_zero f) buf (index k + 2) lt in
      rw (weight, inside, red, green, blue, e) refl

  convolve-eq :
      (buf kernel : List F32) (size : ℕ) (index : ℕ → ℕ)
      → size ≤ length kernel
      → ((k : ℕ) → k < size → index k + 2 < length buf)
      → convolve f buf kernel size index ≡ some (sums buf kernel index size)
  unfolding convolve
  convolve-eq buf kernel size index fits inside =
      let (s, ran, e) =
        for_range-carries (λ k s. s ≡ sums buf kernel index k) (convolve_round f buf kernel index)
          size 0 size _ (omega arith)
          (λ k s lo lt e. (
            _,
            convolve_round-eq buf kernel index k s (omega (arith, fits)) (inside k lt) e,
            ap (sums buf kernel index) (suc_eq k),
          ))
          refl in
      ran ∙ ap some e
    where
      suc_eq : (k : ℕ) → suc k ≡ k + 1
      suc_eq k = omega arith

  -- The one of `limit` rows or columns that is nearest to the one at x + k - half.
  abbrev pub nearest : ℕ → ℕ → ℕ → ℕ → ℕ
  nearest limit x half k = if leb (x + k - half) (limit - 1) then x + k - half else limit - 1

  nearest-lt : (limit x half k : ℕ) → x < limit → nearest limit x half k < limit
  nearest-lt limit x half k lt = ground arith

  clamp_index-nearest :
      (limit x half k : ℕ) → x < limit → clamp_index f limit x half k ≡ nearest limit x half k
  unfolding clamp_index
  clamp_index-nearest limit x half k lt = ground arith

  -- The pixel that the kernel's element `k` weighs, in a row.
  abbrev pub across : List F32 → ℕ → Text → ℕ → ℕ → ℕ → ℕ → F32
  across kernel size input w y x c =
      total (λ k. of_byte (byte_at input (position w y (nearest w x (size / 2) k) c)))
        (elem (f32_zero f) kernel) size

  -- A channel of a blurred pixel.
  abbrev pub blurred : List F32 → ℕ → Text → ℕ → ℕ → ℕ → ℕ → ℕ → ℕ
  blurred kernel size input w h y x c = clamp_to_byte f (
      total (λ k. across kernel size input w (nearest h y (size / 2) k) x c)
        (elem (f32_zero f) kernel) size)

  module _ (input : Text) (w h : ℕ) (len : length input ≡ w * h * 3) (kernel : List F32) (size : ℕ)
      (fits : size ≤ length kernel) where
    across-eq :
        (y x c : ℕ) (index : ℕ → ℕ)
        → y < h
        → x < w
        → c < 3
        → ((k : ℕ) → index k ≡ position w y (nearest w x (size / 2) k) c)
        → total
            (λ k. elem (f32_zero f) (bytes_of f input) (index k))
            (elem (f32_zero f) kernel)
            size
          ≡ across kernel size input w y x c
    across-eq y x c index y_lt x_lt c_lt each =
        total-cong _ _ (elem (f32_zero f) kernel) size (λ k k_lt.
          ap (elem (f32_zero f) (bytes_of f input)) (each k)
          ∙ elem-bytes_of input (position w y (nearest w x (size / 2) k) c) (
              omega (
                arith,
                len,
                index-lt w h y (nearest w x (size / 2) k) c y_lt (nearest-lt w x (size / 2) k x_lt)
                    c_lt,
              )))

    horizontal-Paints :
        (y x : ℕ) (temp : List F32)
        → y < h
        → x < w
        → length temp ≡ w * h * 3
        → Gives
            (Paints w h (across kernel size input w) y x temp)
            (horizontal f (bytes_of f input) kernel size w y x temp)
    unfolding horizontal
    horizontal-Paints y x temp y_lt x_lt temp_len =
        let ran =
          convolve-eq (bytes_of f input) kernel size
            (λ k. (y * w + clamp_index f w x (size / 2) k) * 3) fits
            (λ k k_lt. omega (
              arith,
              len,
              length-bytes_of input,
              index-lt w h y (clamp_index f w x (size / 2) k) 2 y_lt
                  (clamp_index-lt w x (size / 2) k x_lt) (omega arith),
            )) in
        let inside : ltb ((y * w + x) * 3 + 2) (length temp) ≡ true =
          ground (arith, temp_len, index-lt w h y x 2 y_lt x_lt (omega arith)) in
        let e₀ =
          across-eq y x 0 (λ k. (y * w + clamp_index f w x (size / 2) k) * 3) y_lt x_lt
            (omega arith) (λ k. omega (arith, clamp_index-nearest w x (size / 2) k x_lt)) in
        let e₁ =
          across-eq y x 1 (λ k. (y * w + clamp_index f w x (size / 2) k) * 3 + 1) y_lt x_lt
            (omega arith) (λ k. omega (arith, clamp_index-nearest w x (size / 2) k x_lt)) in
        let e₂ =
          across-eq y x 2 (λ k. (y * w + clamp_index f w x (size / 2) k) * 3 + 2) y_lt x_lt
            (omega arith) (λ k. omega (arith, clamp_index-nearest w x (size / 2) k x_lt)) in
        let (out, wrote, paints) =
          put_pixel-Paints w h (across kernel size input w) y x temp y_lt x_lt temp_len in
        (out, rw (ran, inside) (same_pixel temp _ e₀ e₁ e₂ ∙ wrote), paints)

    -- The picture after the horizontal pass.
    down-eq :
        (temp : List F32) (y x c : ℕ) (index : ℕ → ℕ)
        → IsPainted w h (across kernel size input w) temp
        → y < h
        → x < w
        → c < 3
        → ((k : ℕ) → index k ≡ position w (nearest h y (size / 2) k) x c)
        → total (λ k. elem (f32_zero f) temp (index k)) (elem (f32_zero f) kernel) size
          ≡ total
              (λ k. across kernel size input w (nearest h y (size / 2) k) x c)
              (elem (f32_zero f) kernel)
              size
    down-eq temp y x c index painted y_lt x_lt c_lt each =
        total-cong _ _ (elem (f32_zero f) kernel) size (λ k k_lt.
          ap (elem (f32_zero f) temp) (each k)
          ∙ elem-eq (f32_zero f) temp _ _
              (painted (nearest h y (size / 2) k) x c (nearest-lt h y (size / 2) k y_lt) x_lt c_lt))

    vertical-Paints :
        (temp : List F32) (y x : ℕ) (out : Text)
        → IsPainted w h (across kernel size input w) temp
        → length temp ≡ w * h * 3
        → y < h
        → x < w
        → length out ≡ w * h * 3
        → Gives
            (Paints w h (blurred kernel size input w h) y x out)
            (vertical f temp kernel size w h y x out)
    unfolding vertical
    vertical-Paints temp y x out painted temp_len y_lt x_lt out_len =
        let ran =
          convolve-eq temp kernel size (λ k. (clamp_index f h y (size / 2) k * w + x) * 3) fits
            (λ k k_lt. omega (
              arith,
              temp_len,
              index-lt w h (clamp_index f h y (size / 2) k) x 2
                  (clamp_index-lt h y (size / 2) k y_lt) x_lt (omega arith),
            )) in
        let inside : ltb ((y * w + x) * 3 + 2) (length out) ≡ true =
          ground (arith, out_len, index-lt w h y x 2 y_lt x_lt (omega arith)) in
        let e₀ =
          down-eq temp y x 0 (λ k. (clamp_index f h y (size / 2) k * w + x) * 3) painted y_lt x_lt
            (omega arith) (λ k. rw (clamp_index-nearest h y (size / 2) k y_lt) (omega arith)) in
        let e₁ =
          down-eq temp y x 1 (λ k. (clamp_index f h y (size / 2) k * w + x) * 3 + 1) painted y_lt
            x_lt (omega arith) (λ k. rw (clamp_index-nearest h y (size / 2) k y_lt) refl) in
        let e₂ =
          down-eq temp y x 2 (λ k. (clamp_index f h y (size / 2) k * w + x) * 3 + 2) painted y_lt
            x_lt (omega arith) (λ k. rw (clamp_index-nearest h y (size / 2) k y_lt) refl) in
        let (out', wrote, paints) =
          put_pixel-Paints w h (blurred kernel size input w h) y x out y_lt x_lt out_len in
        (
          out',
          rw (ran, inside)
              (same_pixel out _ (ap (clamp_to_byte f) e₀) (ap (clamp_to_byte f) e₁)
                  (ap (clamp_to_byte f) e₂)
                ∙ wrote),
          paints,
        )

  -- What `GaussianBlur` of a frame is: the size is that of the frame, and each channel of each pixel is
  -- the blurred one, for the kernel that was generated in the buffer.
  pub record IsBlurred (input : Text) (w h : ℕ) (radius : F32) (buffer : List F32)
      (out : Text × List F32) : Type 0 where
    pub same_length : length out.0 ≡ w * h * 3
    pub generated : generate_gaussian_kernel f buffer (kernel_size f radius) radius ≡ some out.1
    pub pixels : IsPainted w h (blurred out.1 (kernel_size f radius) input w h) out.0

  -- `GaussianBlur` of a frame of w * h pixels, fewer than 2 ^ 63 bytes, with a buffer of 31 elements
  -- does not panic, and its two passes compute the blur: every channel of every pixel, those on the border
  -- included, is the weighted sum over the rows around it of the weighted sums over the columns
  -- around it of that channel of the frame, clamped to a byte, where a row or column beyond the frame is
  -- the nearest one, and the weights are the kernel's. The result has the frame's size.
  pub gaussian_blur-IsBlurred :
      (input : Text) (w h : ℕ) (radius : F32) (buffer : List F32)
      → length input ≡ w * h * 3
      → w * h * 3 < 2 ^ 63
      → length buffer ≡ 31
      → Gives
          (IsBlurred input w h radius buffer)
          (gaussian_blur f input (pos w) (pos h) radius buffer)
  unfolding gaussian_blur
  gaussian_blur-IsBlurred input w h radius buffer len small buffer_len =
      let bounds = kernel_size-bounds f radius in
      let (kernel, made, same) =
        generate_gaussian_kernel-Gives f buffer (kernel_size f radius) radius
          (omega (arith, bounds.1)) in
      let fits : kernel_size f radius ≤ length kernel = omega (arith, bounds.1) in
      let (temp, passed, (temp_len, painted)) =
        each_pixel-IsPainted w h (across kernel (kernel_size f radius) input w) f _
          (λ y x t y_lt x_lt t_len.
            horizontal-Paints input w h len kernel (kernel_size f radius) fits y x t y_lt x_lt
              t_len)
          _ (length-replicate (w * h * 3) (f32_zero f)) in
      let (out, done, (out_len, pixels)) =
        each_pixel-IsPainted w h (blurred kernel (kernel_size f radius) input w h) f _
          (λ y x t y_lt x_lt t_len.
            vertical-Paints input w h len kernel (kernel_size f radius) fits temp y x t painted
              temp_len y_lt x_lt t_len)
          _ (length-replicate (w * h * 3) 0) in
      (
        (out, kernel),
        rw (pixels_exact w h (omega arith), pixels_exact (w * h) 3 small, made, passed, done) refl,
        record { same_length = out_len; generated = made; pixels = pixels },
      )
