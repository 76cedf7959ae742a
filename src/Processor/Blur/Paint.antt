-- ===== src/Processor/Blur/Paint.antt =====
-- Loops over all pixels of a frame that write the three channels of each.
use vkr.Prelude.{
  ℕ, zero, suc, ◌+◌, ◌*◌, ◌<◌, ◌≡◌, ◌≢◌, ◌∙◌, Bool, true, ◌&&◌, ◌||◌, inl, inr, Option, some, List,
  arith, length, get_elem?, ltb, ◌==◌, if◌then◌else◌, Bool-cases,
}
use vkr.Processor.{Floats, for_range, put_pixel}
use vkr.Processor.Loops.{Gives, for_range-carries, index-injective, index-lt, put_pixel-Gives}
use vkr.Processor.Picture.{position}
use vkr.Processor.Blur.{each_pixel}

-- The pixel comes before row `row` and column `column`.
abbrev before : ℕ → ℕ → ℕ → ℕ → Bool
before row column y x = ltb y row || (y == row && ltb x column)

module _ {A : Type 0} (w h : ℕ) (value : ℕ → ℕ → ℕ → A) where
  pub record Paints (y x : ℕ) (out out' : List A) : Type 0 where
    pub same_length : length out' ≡ length out
    pub written : (c : ℕ) → c < 3 → get_elem? out' (position w y x c) ≡ some (value y x c)
    pub others :
        (j : ℕ) → ((c : ℕ) → c < 3 → j ≢ position w y x c) → get_elem? out' j ≡ get_elem? out j

  -- Every pixel has its value.
  abbrev pub IsPainted : List A → Type 0
  IsPainted out =
      (y x c : ℕ) → y < h → x < w → c < 3 → get_elem? out (position w y x c) ≡ some (value y x c)

  abbrev Begun : ℕ → ℕ → List A → Type 0
  Begun row column out =
      (length out ≡ w * h * 3)
      × ((y x c : ℕ)
          → y < h
          → x < w
          → c < 3
          → before row column y x ≡ true
          → get_elem? out (position w y x c) ≡ some (value y x c))

  -- The three writes of a pixel are such a step.
  pub put_pixel-Paints :
      (y x : ℕ) (out : List A)
      → y < h
      → x < w
      → length out ≡ w * h * 3
      → Gives
          (Paints y x out)
          (put_pixel out ((y * w + x) * 3) (value y x 0) (value y x 1) (value y x 2))
  put_pixel-Paints y x out y_lt x_lt len =
      let (out', wrote, (same, each)) =
        put_pixel-Gives out ((y * w + x) * 3) (value y x 0) (value y x 1) (value y x 2)
          (omega (arith, len, index-lt w h y x 2 y_lt x_lt (omega arith))) in
      (
        out',
        wrote,
        record {
          same_length = same;
          written = λ c c_lt. channel c c_lt (each (position w y x c));
          others = λ j apart.
              let a₀ = apart 0 (omega arith) in
              let a₁ = apart 1 (omega arith) in
              let a₂ = apart 2 (omega arith) in let at_j = each j in ground arith;
        },
      )
    where
      channel :
          (c : ℕ) {e : Option A}
          → c < 3
          → e ≡ (
              if position w y x c == (y * w + x) * 3 + 2
              then some (value y x 2)
              else if position w y x c == (y * w + x) * 3 + 1
              then some (value y x 1)
              else if position w y x c == (y * w + x) * 3
              then some (value y x 0)
              else get_elem? out (position w y x c))
          → e ≡ some (value y x c)
      channel zero lt e = ground arith
      channel (suc zero) lt e = ground arith
      channel (suc (suc zero)) lt e = ground arith
      channel (suc (suc (suc c))) lt e = absurd (omega arith)

  paint_one :
      (row column : ℕ) (out out' : List A)
      → column < w
      → Begun row column out
      → Paints row column out out'
      → Begun row (column + 1) out'
  paint_one row column out out' column_lt (len, begun) paints = (
    paints.same_length ∙ len,
    λ y x c y_lt x_lt c_lt earlier. elim (Bool-cases (y == row && x == column)) [
      | inl here ↦
          let ey : y ≡ row = ground arith in
          let ex : x ≡ column = ground arith in rw (ey, ex) (paints.written c c_lt)
      | inr there ↦
          let apart : (c' : ℕ) → c' < 3 → position w y x c ≢ position w row column c' = λ c' lt e.
            let (ey, ex, ec) = index-injective w y row x column c c' x_lt column_lt c_lt lt e in
            absurd (ground arith) in
          paints.others (position w y x c) apart ∙ begun y x c y_lt x_lt c_lt (ground arith)
    ],
  )

  module _ (f : Floats) (body : ℕ → ℕ → List A → Option (List A))
      (paints : (y x : ℕ) (out : List A)
        → y < h
        → x < w
        → length out ≡ w * h * 3
        → Gives (Paints y x out) (body y x out)) where
    paint_row :
        (row : ℕ) (out : List A)
        → row < h
        → Begun row 0 out
        → Gives (Begun (row + 1) 0) (for_range w 0 (body row) out)
    paint_row row out lt start =
        let (out', ran, (len, begun)) =
          for_range-carries (Begun row) (body row) w 0 w out (omega arith)
            (λ x t lo x_lt p.
              let (t', wrote, one) = paints row x t lt x_lt p.0 in
              (t', wrote, paint_one row x t t' x_lt p one))
            start in
        (
          out',
          ran,
          (len, λ y x c y_lt x_lt c_lt earlier. begun y x c y_lt x_lt c_lt (ground arith)),
        )

    pub each_pixel-IsPainted :
        (out : List A)
        → length out ≡ w * h * 3
        → Gives (λ out'. (length out' ≡ w * h * 3) × IsPainted out') (each_pixel f w h body out)
    unfolding each_pixel
    each_pixel-IsPainted out len =
        let (out', ran, (same, begun)) =
          for_range-carries (λ y. Begun y 0) (λ y. for_range w 0 (body y)) h 0 h out (omega arith)
            (λ y t lo lt p. paint_row y t lt p)
            (len, λ y x c y_lt x_lt c_lt earlier. absurd (ground arith)) in
        (out', ran, (same, λ y x c y_lt x_lt c_lt. begun y x c y_lt x_lt c_lt (ground arith)))
