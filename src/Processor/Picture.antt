-- ===== src/Processor/Picture.antt =====
-- Pictures that a double loop over the inner pixels writes, pixel by pixel.
use vkr.Prelude.{
  ℕ, zero, suc, ◌+◌, ◌-◌, ◌*◌, ◌<◌, ◌≤◌, ◌≡◌, ◌≢◌, refl, sym, ap, ◌∙◌, Bool, true, false, ◌&&◌,
  ◌||◌, inl, inr, Option, some, arith, length, length-replicate, get_elem?, replicate, ltb, leb,
  ◌==◌, if◌then◌else◌, Bool-cases,
}
use vkr.Prelude.Int.{pos}
use vkr.Prelude.Text.{Text}
use vkr.Processor.{Floats, for_range}
use vkr.Processor.Loops.{Gives, for_range-carries, index-lt, index-injective}
use vkr.Processor.Filters.{each_inner}

-- The index of a channel of a pixel in a frame of width `w`.
abbrev pub position : ℕ → ℕ → ℕ → ℕ → ℕ
position w y x c = (y * w + x) * 3 + c

-- Not on the border.
abbrev pub is_inner : ℕ → ℕ → ℕ → ℕ → Bool
is_inner w h y x = (leb 1 y && ltb (y + 1) h) && (leb 1 x && ltb (x + 1) w)

-- The pixel comes before row `row` and column `column` in the order of the loops.
abbrev before : ℕ → ℕ → ℕ → ℕ → Bool
before row column y x = ltb y row || (y == row && ltb x column)

get_elem?-replicate {ℓ} :
    {A : Type ℓ} (n j : ℕ) (a : A) → j < n → get_elem? (replicate n a) j ≡ some a
get_elem?-replicate zero j a lt = elim lt [ ]
get_elem?-replicate (suc n) zero a lt = refl
get_elem?-replicate (suc n) (suc j) a lt = get_elem?-replicate n j a (omega arith)

module _ (w h : ℕ) (value : ℕ → ℕ → ℕ → ℕ) where
  -- The step from `out` to `out'` writes the three channels of one pixel and nothing else.
  pub record Writes (y x : ℕ) (out out' : Text) : Type 0 where
    pub same_length : length out' ≡ length out
    pub written : (c : ℕ) → c < 3 → get_elem? out' (position w y x c) ≡ some (value y x c)
    pub others :
        (j : ℕ) → ((c : ℕ) → c < 3 → j ≢ position w y x c) → get_elem? out' j ≡ get_elem? out j

  -- Every inner pixel has its value, and the border is black.
  abbrev pub IsPicture : Text → Type 0
  IsPicture out =
      (y x c : ℕ)
      → y < h
      → x < w
      → c < 3
      → get_elem? out (position w y x c) ≡ some (if is_inner w h y x then value y x c else 0)

  abbrev Filled : ℕ → ℕ → Text → Type 0
  Filled row column out =
      (y x c : ℕ)
      → y < h
      → x < w
      → c < 3
      → get_elem? out (position w y x c)
        ≡ some (if is_inner w h y x && before row column y x then value y x c else 0)

  fill_one :
      (row column : ℕ) (out out' : Text)
      → is_inner w h row column ≡ true
      → Filled row column out
      → Writes row column out out'
      → Filled row (column + 1) out'
  fill_one row column out out' inner filled writes y x c y_lt x_lt c_lt =
      elim (Bool-cases (y == row && x == column)) [
        | inl here ↦
            let ey : y ≡ row = ground arith in
            let ex : x ≡ column = ground arith in
            let done : (is_inner w h row column && before row (column + 1) row column) ≡ true =
              ground arith in
            rw (ey, ex, done) (writes.written c c_lt)
        | inr there ↦
            let apart : (c' : ℕ) → c' < 3 → position w y x c ≢ position w row column c' = λ c' lt e.
              let (ey, ex, ec) =
                index-injective w y row x column c c' x_lt (ground arith) c_lt lt e in
              absurd (ground arith) in
            let same : (is_inner w h y x && before row (column + 1) y x)
                ≡ (is_inner w h y x && before row column y x) =
              ground arith in
            rw same (writes.others (position w y x c) apart ∙ filled y x c y_lt x_lt c_lt)
      ]

  masked :
      (y x c : ℕ) (m m' : Bool)
      → m ≡ m'
      → ◌≡◌ {A = Option ℕ}
          (some (if m then value y x c else 0))
          (some (if m' then value y x c else 0))
  masked y x c m m' e = ap (λ b. some (if b then value y x c else 0)) e

  row_end :
      (row y x : ℕ)
      → 1 ≤ row
      → row + 1 < h
      → (is_inner w h y x && before row (1 + (w - 2)) y x)
        ≡ (is_inner w h y x && before (row + 1) 1 y x)
  row_end row y x lo hi = ground arith

  last_row : (y x : ℕ) → (is_inner w h y x && before (1 + (h - 2)) 1 y x) ≡ is_inner w h y x
  last_row y x = ground arith

  first_row : (y x : ℕ) → (is_inner w h y x && before 1 1 y x) ≡ false
  first_row y x = ground arith

  blank : (size : ℕ) → size ≡ w * h * 3 → Filled 1 1 (replicate size 0)
  blank size e y x c y_lt x_lt c_lt =
      let inside = index-lt w h y x c y_lt x_lt c_lt in
      get_elem?-replicate size (position w y x c) 0 (omega (arith, inside))
      ∙ masked y x c false _ (sym (first_row y x))

  module _ (f : Floats) (body : ℕ → ℕ → Text → Option Text)
      (writes : (y x : ℕ) (out : Text)
        → is_inner w h y x ≡ true
        → length out ≡ w * h * 3
        → Gives (Writes y x out) (body y x out)) where
    fill_row :
        (row : ℕ) (out : Text)
        → 1 ≤ row
        → row + 1 < h
        → (length out ≡ w * h * 3) × Filled row 1 out
        → Gives
            (λ out'. (length out' ≡ w * h * 3) × Filled (row + 1) 1 out')
            (for_range (w - 2) 1 (body row) out)
    fill_row row out lo hi start =
        let (out', ran, (len, filled)) =
          for_range-carries (λ x out. (length out ≡ w * h * 3) × Filled row x out) (body row)
            (w - 2) 1 (1 + (w - 2)) out refl
            (λ x t x_lo x_hi (t_len, t_filled).
              let (t', wrote, one) = writes row x t (ground arith) t_len in
              (
                t',
                wrote,
                (one.same_length ∙ t_len, fill_one row x t t' (ground arith) t_filled one),
              ))
            start in
        (
          out',
          ran,
          (
            len,
            λ y x c y_lt x_lt c_lt.
                filled y x c y_lt x_lt c_lt ∙ masked y x c _ _ (row_end row y x lo hi),
          ),
        )

    -- A loop over the inner pixels whose body writes its own pixel draws the picture.
    pub each_inner-IsPicture :
        (size : ℕ)
        → size ≡ w * h * 3
        → Gives
            (λ out. (length out ≡ w * h * 3) × IsPicture out)
            (each_inner f (pos w) (pos h) body (replicate size 0))
    unfolding each_inner
    each_inner-IsPicture size e =
        let (out', ran, (len, filled)) =
          for_range-carries (λ y out. (length out ≡ w * h * 3) × Filled y 1 out) _ (h - 2) 1
            (1 + (h - 2)) (replicate size 0) refl
            (λ y t y_lo y_hi start. fill_row y t y_lo (omega arith) start)
            (length-replicate size 0 ∙ e, blank size e) in
        (
          out',
          ran,
          (
            len,
            λ y x c y_lt x_lt c_lt. filled y x c y_lt x_lt c_lt ∙ masked y x c _ _ (last_row y x),
          ),
        )
