-- ===== src/Processor/Filters/Inner.antt =====
-- `Sharpen` and `EdgeDetect` do not panic on a frame whose data have the size that its width and
-- height say.
use vkr.Prelude.{
  ℕ, ◌+◌, ◌-◌, ◌*◌, ◌^◌, ◌<◌, ◌≤◌, ◌≡◌, refl, ◌∙◌, Option, arith, length, length-replicate,
}
use vkr.Prelude.Int.{ℤ, pos}
use vkr.Prelude.Text.{Text}
use vkr.Processor.{Floats, byte_of, clamp_to_byte, f32_zero, gray_value, gray_at}
use vkr.Processor.Loops.{
  Gives, Gives-bind, for_range-keeps, at-Gives, put-Gives, put_pixel-Gives, index-lt,
}
use vkr.Processor.Filters.{
  around, each_inner, sharpen_kernel, neighbour, weigh_neighbour, add_neighbour, sharpen_channel,
  sharpen, sobel_x, sobel_y, gray_round, gradient, magnitude, edge_round, edge_detect,
}
use vkr.Processor.Filters.Total.{pixels_exact}

module _ (f : Floats) where
  open f use {F32}

  around-Gives {ℓ} :
      {S : Type ℓ} (body : ℕ → ℕ → S → Option S)
      → ((a b : ℕ) (s : S) → a < 3 → b < 3 → Gives (λ (t : S). Unit {0}) (body a b s))
      → (s : S) → Gives (λ (t : S). Unit {0}) (around f body s)
  unfolding around
  around-Gives body h s =
      for_range-keeps (λ t. Unit {0}) _ 3 0 s
        (λ a t a_lo a_lt u.
          for_range-keeps (λ t. Unit {0}) (body a) 3 0 t
            (λ b v b_lo b_lt u. h a b v (omega arith) (omega arith)) tt)
        tt

  each_inner-keeps {ℓ κ} :
      {S : Type ℓ} (P : S → Type κ) (body : ℕ → ℕ → S → Option S) (w h : ℕ)
      → ((y x : ℕ) (s : S) → 1 ≤ y → y + 1 < h → 1 ≤ x → x + 1 < w → P s → Gives P (body y x s))
      → (s : S) → P s
      → Gives P (each_inner f (pos w) (pos h) body s)
  unfolding each_inner
  each_inner-keeps P body w h keep s p =
      for_range-keeps P _ (h - 2) 1 s
        (λ y t y_lo y_lt q.
          for_range-keeps P (body y) (w - 2) 1 t
            (λ x v x_lo x_lt r. keep y x v y_lo (omega arith) x_lo (omega arith) r) q)
        p

  -- The position of a neighbour of an inner pixel is that of a pixel of the frame.
  neighbour-lt :
      (w h y x a b : ℕ)
      → y + 1 < h
      → x + 1 < w
      → 1 ≤ y
      → 1 ≤ x
      → a < 3
      → b < 3
      → neighbour f w y x a b * 3 + 2 < w * h * 3
  neighbour-lt w h y x a b y_hi x_hi y_lo x_lo a_lt b_lt =
      index-lt w h (y + a - 1) (x + b - 1) 2 (omega arith) (omega arith) (omega arith)

  weigh_neighbour-Gives :
      (input : Text) (w h : ℕ) (intensity : F32) (y x c : ℕ)
      → length input ≡ w * h * 3
      → 1 ≤ y
      → y + 1 < h
      → 1 ≤ x
      → x + 1 < w
      → c < 3
      → (a b : ℕ) (s : F32) → a < 3
      → b < 3
      → Gives (λ (t : F32). Unit {0}) (weigh_neighbour f input w intensity y x c a b s)
  unfolding weigh_neighbour
  weigh_neighbour-Gives input w h intensity y x c len y_lo y_hi x_lo x_hi c_lt a b s a_lt b_lt =
      let near = neighbour-lt w h y x a b y_hi x_hi y_lo x_lo a_lt b_lt in
      Gives-bind (λ (v : ℕ). Unit {0}) (λ (t : F32). Unit {0}) _ _
        (at-Gives input (neighbour f w y x a b * 3 + c) (omega (arith, near)))
        (λ v u.
          Gives-bind (λ (k : F32). Unit {0}) (λ (t : F32). Unit {0}) _ _
            (at-Gives (sharpen_kernel f intensity) (a * 3 + b) (omega arith))
            (λ k u'. (_, refl, tt)))

  -- One channel of one inner pixel is written inside the output.
  sharpen_channel-Gives :
      (input : Text) (w h : ℕ) (intensity : F32) (y x c : ℕ) (output : Text)
      → length input ≡ w * h * 3
      → 1 ≤ y
      → y + 1 < h
      → 1 ≤ x
      → x + 1 < w
      → c < 3
      → length output ≡ w * h * 3
      → Gives (λ out. length out ≡ w * h * 3) (sharpen_channel f input w intensity y x c output)
  unfolding sharpen_channel
  sharpen_channel-Gives input w h intensity y x c output len y_lo y_hi x_lo x_hi c_lt out_len =
      let at_pixel = index-lt w h y x c (omega arith) (omega arith) c_lt in
      Gives-bind (λ (v : F32). Unit {0}) (λ out. length out ≡ w * h * 3) _ _
        (around-Gives (weigh_neighbour f input w intensity y x c)
          (weigh_neighbour-Gives input w h intensity y x c len y_lo y_hi x_lo x_hi c_lt)
          (f32_zero f))
        (λ sum u.
          let (out, wrote, (same, at_j)) =
            put-Gives output ((y * w + x) * 3 + c) (clamp_to_byte f sum)
              (omega (arith, at_pixel)) in
          (out, wrote, same ∙ out_len))

  -- `Sharpen` of a frame of the right size does not panic, and its result has that size.
  pub sharpen-Gives :
      (input : Text) (w h : ℕ) (intensity : F32)
      → length input ≡ w * h * 3
      → Gives (λ out. length out ≡ w * h * 3) (sharpen f input (pos w) (pos h) intensity)
  unfolding sharpen
  sharpen-Gives input w h intensity len =
      each_inner-keeps (λ out. length out ≡ w * h * 3) _ w h
        (λ y x out y_lo y_hi x_lo x_hi p.
          for_range-keeps (λ out. length out ≡ w * h * 3) _ 3 0 out
            (λ c out' c_lo c_lt p'.
              sharpen_channel-Gives input w h intensity y x c out' len y_lo y_hi x_lo x_hi
                (omega arith) p')
            p)
        _ (length-replicate (length input) 0 ∙ len)

  gray_round-Gives :
      (input : Text) (n i : ℕ) (gray : Text)
      → i < n
      → length input ≡ n * 3
      → length gray ≡ n
      → Gives (λ out. length out ≡ n) (gray_round f input i gray)
  unfolding gray_round gray_at
  gray_round-Gives input n i gray lt len gray_len =
      let (r, at_r, u) = at-Gives input (i * 3) (omega arith) in
      let (g, at_g, u') = at-Gives input (i * 3 + 1) (omega arith) in
      let (b, at_b, u'') = at-Gives input (i * 3 + 2) (omega arith) in
      let (out, wrote, (same, at_j)) = put-Gives gray i (gray_value f r g b) (omega arith) in
      (out, rw (at_r, at_g, at_b) wrote, same ∙ gray_len)

  add_neighbour-Gives :
      (gray : Text) (w h y x : ℕ)
      → length gray ≡ w * h
      → 1 ≤ y
      → y + 1 < h
      → 1 ≤ x
      → x + 1 < w
      → (a b : ℕ) (s : ℤ × ℤ) → a < 3
      → b < 3
      → Gives (λ (t : ℤ × ℤ). Unit {0}) (add_neighbour f gray w y x a b s)
  unfolding add_neighbour
  add_neighbour-Gives gray w h y x len y_lo y_hi x_lo x_hi a b (gx, gy) a_lt b_lt =
      let near = neighbour-lt w h y x a b y_hi x_hi y_lo x_lo a_lt b_lt in
      Gives-bind (λ (v : ℕ). Unit {0}) (λ (t : ℤ × ℤ). Unit {0}) _ _
        (at-Gives gray (neighbour f w y x a b) (omega (arith, near)))
        (λ v u.
          Gives-bind (λ (k : ℤ). Unit {0}) (λ (t : ℤ × ℤ). Unit {0}) _ _
            (at-Gives (sobel_x f) (a * 3 + b) (omega arith))
            (λ k u'.
              Gives-bind (λ (k : ℤ). Unit {0}) (λ (t : ℤ × ℤ). Unit {0}) _ _
                (at-Gives (sobel_y f) (a * 3 + b) (omega arith)) (λ k' u''. (_, refl, tt))))

  edge_round-Gives :
      (gray output : Text) (w h y x : ℕ)
      → length gray ≡ w * h
      → 1 ≤ y
      → y + 1 < h
      → 1 ≤ x
      → x + 1 < w
      → length output ≡ w * h * 3
      → Gives (λ out. length out ≡ w * h * 3) (edge_round f gray w y x output)
  unfolding edge_round gradient
  edge_round-Gives gray output w h y x len y_lo y_hi x_lo x_hi out_len =
      let at_pixel = index-lt w h y x 2 (omega arith) (omega arith) (omega arith) in
      Gives-bind (λ (v : ℤ × ℤ). Unit {0}) (λ out. length out ≡ w * h * 3) _ _
        (around-Gives (add_neighbour f gray w y x)
          (add_neighbour-Gives gray w h y x len y_lo y_hi x_lo x_hi) (pos 0, pos 0))
        (λ g u.
          let m = byte_of (magnitude f g) in
          let (out, wrote, (same, at_j)) =
            put_pixel-Gives output ((y * w + x) * 3) m m m (omega (arith, at_pixel)) in
          (out, wrote, same ∙ out_len))

  -- `EdgeDetect` of a frame of the right size, with fewer than 2 ^ 63 pixels, does not panic, and its result has that size.
  pub edge_detect-Gives :
      (input : Text) (w h : ℕ)
      → length input ≡ w * h * 3
      → w * h < 2 ^ 63
      → Gives (λ out. length out ≡ w * h * 3) (edge_detect f input (pos w) (pos h))
  unfolding edge_detect
  edge_detect-Gives input w h len small = rw (pixels_exact w h small) (
      Gives-bind (λ gray. length gray ≡ w * h) (λ out. length out ≡ w * h * 3) _ _
        (for_range-keeps (λ gray. length gray ≡ w * h) (gray_round f input) (w * h) 0 _
          (λ i gray i_lo i_lt p. gray_round-Gives input (w * h) i gray (omega arith) len p)
          (length-replicate (w * h) 0))
        (λ gray p.
          each_inner-keeps (λ out. length out ≡ w * h * 3) _ w h
            (λ y x out y_lo y_hi x_lo x_hi q.
              edge_round-Gives gray out w h y x p y_lo y_hi x_lo x_hi q)
            _ (length-replicate (length input) 0 ∙ len)))
