-- ===== src/Processor/Blur/Total.antt =====
-- `GaussianBlur` does not panic on a frame of the right size, whatever the radius.
use vkr.Prelude.{
  ℕ, ◌+◌, ◌*◌, ◌/◌, ◌%◌, ◌^◌, ◌<◌, ◌≤◌, ◌≡◌, refl, ◌∙◌, inl, inr, Option, some, List, arith, length,
  length-replicate, ltb, Bool-cases, if◌then◌else◌,
}
use vkr.Prelude.Int.{ℤ, pos, negsuc}
use vkr.Prelude.Text.{Text}
use vkr.Processor.{Floats, put_pixel}
use vkr.Processor.Loops.{Gives, Gives-bind, for_range-keeps, at-Gives, put-Gives, put_pixel-Gives}
use vkr.Processor.Filters.Total.{pixels_exact}
use vkr.Processor.Blur.{
  clamp_size, or_one, kernel_size, fill_round, normalize_round, generate_gaussian_kernel, weigh,
  add_pixel, convolve_round, convolve, Sums, Kernel, bytes_of, horizontal, vertical, each_pixel,
  gaussian_blur,
}

clamp_size-bounds :
    (z : ℤ)
    → (3 ≤ clamp_size (or_one z)) × (clamp_size (or_one z) ≤ 31) × (clamp_size (or_one z) % 2 ≡ 1)
unfolding clamp_size
clamp_size-bounds (pos n) = ground arith
clamp_size-bounds (negsuc n) = ground arith

module _ (f : Floats) where
  open f use {F32}

  -- The size of the kernel is odd and between 3 and 31, whatever float the radius is.
  pub kernel_size-bounds :
      (radius : F32)
      → (3 ≤ kernel_size f radius) × (kernel_size f radius ≤ 31) × (kernel_size f radius % 2 ≡ 1)
  unfolding kernel_size
  kernel_size-bounds radius =
      clamp_size-bounds (f.to_int (f.ceil (f.mul64 (f.widen radius) (f.of_int64 (pos 6)))))

  fill_round-Gives :
      (sigma2 : F32) (half i : ℕ) (k : Kernel f)
      → i < length (k.0)
      → Gives (λ k'. length (k'.0) ≡ length (k.0)) (fill_round f sigma2 half i k)
  unfolding fill_round
  fill_round-Gives sigma2 half i (kernel, sum) lt =
      Gives-bind (λ filled. length filled ≡ length kernel) (λ k'. length (k'.0) ≡ length kernel) _ _
        (let (out, wrote, (same, at_j)) = put-Gives kernel i _ lt in (out, wrote, same))
        (λ filled e. (_, refl, e))

  normalize_round-Gives :
      (sum : F32) (i : ℕ) (kernel : List F32)
      → i < length kernel
      → Gives (λ out. length out ≡ length kernel) (normalize_round f sum i kernel)
  unfolding normalize_round
  normalize_round-Gives sum i kernel lt =
      Gives-bind (λ (v : F32). Unit {0}) (λ out. length out ≡ length kernel) _ _
        (at-Gives kernel i lt)
        (λ v u. let (out, wrote, (same, at_j)) = put-Gives kernel i _ lt in (out, wrote, same))

  pub generate_gaussian_kernel-Gives :
      (kernel : List F32) (size : ℕ) (sigma : F32)
      → size ≤ length kernel
      → Gives (λ out. length out ≡ length kernel) (generate_gaussian_kernel f kernel size sigma)
  unfolding generate_gaussian_kernel
  generate_gaussian_kernel-Gives kernel size sigma fits =
      Gives-bind (λ k. length (k.0) ≡ length kernel) (λ out. length out ≡ length kernel) _ _
        (for_range-keeps (λ k. length (k.0) ≡ length kernel) _ size 0 _
          (λ i k lo lt p.
            let (k', ran, same) = fill_round-Gives _ (size / 2) i k (omega arith) in
            (k', ran, same ∙ p))
          refl)
        (λ k p.
          for_range-keeps (λ out. length out ≡ length kernel) _ size 0 _
            (λ i out lo lt q.
              let (out', ran, same) = normalize_round-Gives (k.1) i out (omega arith) in
              (out', ran, same ∙ q))
            p)

  add_pixel-Gives :
      (buf : List F32) (idx : ℕ) (weight : F32) (sums : Sums f)
      → Gives (λ (s : Sums f). Unit {0}) (add_pixel f buf idx weight sums)
  unfolding add_pixel weigh
  add_pixel-Gives buf idx weight sums = elim (Bool-cases (ltb (idx + 2) (length buf))) [
    | inl inside ↦
        let lt : idx + 2 < length buf = ground arith in
        let (r, at_r, u) = at-Gives buf idx (omega arith) in
        let (g, at_g, u') = at-Gives buf (idx + 1) (omega arith) in
        let (b, at_b, u'') = at-Gives buf (idx + 2) lt in
        rw (inside, at_r, at_g, at_b) (_, refl, tt)
    | inr outside ↦ rw outside (sums, refl, tt)
  ]

  convolve-Gives :
      (buf kernel : List F32) (size : ℕ) (index : ℕ → ℕ)
      → size ≤ length kernel
      → Gives (λ (s : Sums f). Unit {0}) (convolve f buf kernel size index)
  unfolding convolve convolve_round
  convolve-Gives buf kernel size index fits =
      for_range-keeps (λ s. Unit {0}) _ size 0 _
        (λ k s lo lt u.
          Gives-bind (λ (v : F32). Unit {0}) (λ (s : Sums f). Unit {0}) _ _
            (at-Gives kernel k (omega arith)) (λ v u'. add_pixel-Gives buf (index k) v s))
        tt

  -- A pixel is written only inside the buffer.
  guarded-Gives {ℓ} :
      {A : Type ℓ} (out : List A) (i : ℕ) (r g b : A)
      → Gives
          (λ out'. length out' ≡ length out)
          (if ltb (i + 2) (length out) then put_pixel out i r g b else some out)
  guarded-Gives out i r g b = elim (Bool-cases (ltb (i + 2) (length out))) [
    | inl inside ↦
        let (out', wrote, (same, at_j)) = put_pixel-Gives out i r g b (ground arith) in
        rw inside (out', wrote, same)
    | inr outside ↦ rw outside (out, refl, refl)
  ]

  horizontal-Gives :
      (input kernel : List F32) (size w y x : ℕ) (temp : List F32)
      → size ≤ length kernel
      → Gives (λ out. length out ≡ length temp) (horizontal f input kernel size w y x temp)
  unfolding horizontal
  horizontal-Gives input kernel size w y x temp fits =
      Gives-bind (λ (s : Sums f). Unit {0}) (λ out. length out ≡ length temp) _ _
        (convolve-Gives input kernel size _ fits) (λ s u. guarded-Gives temp _ _ _ _)

  vertical-Gives :
      (temp kernel : List F32) (size w h y x : ℕ) (output : Text)
      → size ≤ length kernel
      → Gives (λ out. length out ≡ length output) (vertical f temp kernel size w h y x output)
  unfolding vertical
  vertical-Gives temp kernel size w h y x output fits =
      Gives-bind (λ (s : Sums f). Unit {0}) (λ out. length out ≡ length output) _ _
        (convolve-Gives temp kernel size _ fits) (λ s u. guarded-Gives output _ _ _ _)

  each_pixel-keeps {ℓ κ} :
      {S : Type ℓ} (P : S → Type κ) (w h : ℕ) (body : ℕ → ℕ → S → Option S)
      → ((y x : ℕ) (s : S) → P s → Gives P (body y x s))
      → (s : S) → P s
      → Gives P (each_pixel f w h body s)
  unfolding each_pixel
  each_pixel-keeps P w h body keep s p =
      for_range-keeps P _ h 0 s
        (λ y t lo lt q. for_range-keeps P (body y) w 0 t (λ x v lo' lt' r. keep y x v r) q) p

  -- `GaussianBlur` with a kernel buffer of 31 elements does not panic on a width and a height that
  -- are not negative and whose frame has fewer than 2 ^ 63 bytes; the result has the
  -- frame's size, and the buffer goes back with the size that it had.
  pub gaussian_blur-Gives :
      (input : Text) (w h : ℕ) (radius : F32) (buffer : List F32)
      → w * h * 3 < 2 ^ 63
      → length buffer ≡ 31
      → Gives
          (λ out. (length (out.0) ≡ w * h * 3) × (length (out.1) ≡ 31))
          (gaussian_blur f input (pos w) (pos h) radius buffer)
  unfolding gaussian_blur
  gaussian_blur-Gives input w h radius buffer small len =
      let fits = (kernel_size-bounds radius).1 in
      rw (pixels_exact w h (omega arith), pixels_exact (w * h) 3 small)
        (Gives-bind (λ k. length k ≡ 31)
          (λ out. (length (out.0) ≡ w * h * 3) × (length (out.1) ≡ 31)) _ _
          (let (k, ran, same) =
              generate_gaussian_kernel-Gives buffer (kernel_size f radius) radius
                (omega (arith, fits)) in
            (k, ran, same ∙ len))
          (λ k k_len.
            Gives-bind (λ (t : List F32). Unit {0})
              (λ out. (length (out.0) ≡ w * h * 3) × (length (out.1) ≡ 31)) _ _
              (each_pixel-keeps (λ t. Unit {0}) w h _
                (λ y x t u.
                  let (t', ran, same) =
                    horizontal-Gives (bytes_of f input) k (kernel_size f radius) w y x t
                      (omega (arith, fits)) in
                  (t', ran, tt))
                _ tt)
              (λ t u.
                Gives-bind (λ out. length out ≡ w * h * 3)
                  (λ out. (length (out.0) ≡ w * h * 3) × (length (out.1) ≡ 31)) _ _
                  (each_pixel-keeps (λ out. length out ≡ w * h * 3) w h _
                    (λ y x out p.
                      let (out', ran, same) =
                        vertical-Gives t k (kernel_size f radius) w h y x out
                          (omega (arith, fits)) in
                      (out', ran, same ∙ p))
                    _ (length-replicate (w * h * 3) 0))
                  (λ out p. (_, refl, (p, k_len))))))
