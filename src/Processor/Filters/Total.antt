-- ===== src/Processor/Filters/Total.antt =====
-- `Grayscale` does not panic on a frame whose data have the size that its width and height say, and
-- what it writes.
use vkr.Prelude.{
  ℕ, ◌+◌, ◌*◌, ◌^◌, ◌<◌, ◌≡◌, ap, ◌∙◌, inl, inr, some, arith, length, length-replicate, get_elem?,
  if◌then◌else◌, ◌==◌, Bool-cases,
}
use vkr.Prelude.Int.{pos, ◌*ℤ◌, int64, wrap_of_Fits64}
use vkr.Prelude.Text.{Text}
use vkr.Processor.{Floats, gray_value, gray_at}
use vkr.Processor.Loops.{Gives, for_range-carries, at-Gives, put_pixel-Gives}
use vkr.Processor.Filters.{grayscale_round, grayscale}

pub product : (w h : ℕ) → pos w *ℤ pos h ≡ pos (w * h)
unfolding ◌*ℤ◌
product w h = ground arith

-- The number of pixels does not wrap.
pub pixels_exact : (w h : ℕ) → w * h < 2 ^ 63 → int64 (pos w *ℤ pos h) ≡ pos (w * h)
pixels_exact w h small = ap int64 (product w h) ∙ wrap_of_Fits64 (pos (w * h)) (small, omega arith)

module _ (f : Floats) where
  open f use {F32}

  gray_at-Gives :
      (input : Text) (idx : ℕ)
      → idx + 2 < length input
      → Gives (λ (v : ℕ). Unit {0}) (gray_at f input idx)
  unfolding gray_at
  gray_at-Gives input idx h =
      let (r, at_r, _) = at-Gives input idx (omega arith) in
      let (g, at_g, _) = at-Gives input (idx + 1) (omega arith) in
      let (b, at_b, _) = at-Gives input (idx + 2) (omega arith) in
      (gray_value f r g b, rw (at_r, at_g, at_b), tt)

  -- The first `n` pixels are gray.
  abbrev pub AreGray : Text → ℕ → Text → Type 0
  AreGray input n output =
      (i c : ℕ) → i < n → c < 3 → get_elem? output (i * 3 + c) ≡ gray_at f input (i * 3)

  gray_step :
      (input output out : Text) (i j c v : ℕ)
      → ((k : ℕ)
          → get_elem? out k ≡ (
              if k == i * 3 + 2
              then some v
              else if k == i * 3 + 1
              then some v
              else if k == i * 3
              then some v
              else get_elem? output k))
      → gray_at f input (i * 3) ≡ some v
      → AreGray input i output
      → j < i + 1
      → c < 3
      → get_elem? out (j * 3 + c) ≡ gray_at f input (j * 3)
  gray_step input output out i j c v each gray before j_lt c_lt = elim (Bool-cases (j == i)) [
    | inl same ↦
        let here : j ≡ i = ground arith in rw (here, gray) (ground (arith, each (i * 3 + c)))
    | inr other ↦ ground (arith, each (j * 3 + c), before j c)
  ]

  grayscale_round-Gives :
      (input : Text) (n i : ℕ) (output : Text)
      → length input ≡ n * 3
      → i < n
      → (length output ≡ n * 3) × AreGray input i output
      → Gives
          (λ out. (length out ≡ n * 3) × AreGray input (i + 1) out)
          (grayscale_round f input i output)
  unfolding grayscale_round
  grayscale_round-Gives input n i output len lt (out_len, before) =
      let (v, gray, _) = gray_at-Gives input (i * 3) (omega arith) in
      let (out, wrote, (kept_len, each)) = put_pixel-Gives output (i * 3) v v v (omega arith) in
      (
        out,
        rw gray wrote,
        (
          kept_len ∙ out_len,
          λ j c j_lt c_lt. gray_step input output out i j c v each gray before j_lt c_lt,
        ),
      )

  -- `Grayscale` of a frame of w * h pixels gives a frame of the same size in which the three channels
  -- of every pixel are the weighted sum of that pixel's channels in the input. The frame has less
  -- than 2 ^ 63 pixels.
  pub grayscale-AreGray :
      (input : Text) (w h : ℕ)
      → length input ≡ w * h * 3
      → w * h < 2 ^ 63
      → Gives
          (λ out. (length out ≡ w * h * 3) × AreGray input (w * h) out)
          (grayscale f input (pos w) (pos h))
  unfolding grayscale
  grayscale-AreGray input w h len small = rw (pixels_exact w h small) (
      for_range-carries (λ i out. (length out ≡ w * h * 3) × AreGray input i out)
        (grayscale_round f input) (w * h) 0 (w * h) _ (omega arith)
        (λ i t lo lt p. grayscale_round-Gives input (w * h) i t len lt p)
        (length-replicate (length input) 0 ∙ len, λ i c lt. elim lt [ ]))
