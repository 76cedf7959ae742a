-- ===== src/Processor/Filters/Window.antt =====
-- The nine pixels around an inner pixel, as the loops of `Sharpen` and `EdgeDetect` read them.
use vkr.Prelude.{
  ℕ, zero, suc, ◌+◌, ◌-◌, ◌*◌, ◌<◌, ◌≡◌, refl, Option, none, some, List, [], ◌∷◌, arith, length,
  get_elem?,
}
use vkr.Prelude.Text.{Text}
use vkr.Processor.{Floats, at, for_range}
use vkr.Processor.Filters.{around, neighbour}

-- The element at an index, 0 beyond the end.
abbrev pub byte_at : Text → ℕ → ℕ
byte_at s i = elim (get_elem? s i) [ none ↦ 0 | some b ↦ b ]

-- What `read` gives at a pixel and its eight neighbours, row by row.
abbrev pub window : (ℕ → ℕ → ℕ) → ℕ → ℕ → List ℕ
window read y x =
    read (y - 1) (x - 1)
    ∷ read (y - 1) x
    ∷ read (y - 1) (x + 1)
    ∷ read y (x - 1)
    ∷ read y x
    ∷ read y (x + 1)
    ∷ read (y + 1) (x - 1)
    ∷ read (y + 1) x
    ∷ read (y + 1) (x + 1)
    ∷ []

pub at-byte_at : (s : Text) (i : ℕ) → i < length s → at s i ≡ some (byte_at s i)
at-byte_at [] i lt = elim lt [ ]
at-byte_at (b ∷ s) zero lt = refl
at-byte_at (b ∷ s) (suc i) lt = at-byte_at s i (omega arith)

-- The loops reach the pixel in row `y'` and column `x'` of a frame at `a`, `b`.
abbrev pub IsNear : ℕ → ℕ → ℕ → ℕ → ℕ → ℕ → ℕ → ℕ → Type 0
IsNear w h y x a b y' x' = (y + a ≡ y' + 1) × (x + b ≡ x' + 1) × (y' < h) × (x' < w)

module _ (f : Floats) where
  -- The nine rounds, each from the state that the round before gave.
  pub around-eq {ℓ} :
      {S : Type ℓ} (body : ℕ → ℕ → S → Option S) {s₀ s₁ s₂ s₃ s₄ s₅ s₆ s₇ s₈ s₉ : S}
      → body 0 0 s₀ ≡ some s₁
      → body 0 1 s₁ ≡ some s₂
      → body 0 2 s₂ ≡ some s₃
      → body 1 0 s₃ ≡ some s₄
      → body 1 1 s₄ ≡ some s₅
      → body 1 2 s₅ ≡ some s₆
      → body 2 0 s₆ ≡ some s₇
      → body 2 1 s₇ ≡ some s₈
      → body 2 2 s₈ ≡ some s₉
      → around f body s₀ ≡ some s₉
  unfolding around for_range
  around-eq body e₁ e₂ e₃ e₄ e₅ e₆ e₇ e₈ e₉ = rw (e₁, e₂, e₃, e₄, e₅, e₆, e₇, e₈, e₉) refl

  pub neighbour-position :
      (w y x a b y' x' : ℕ)
      → (y + a ≡ y' + 1) × (x + b ≡ x' + 1)
      → neighbour f w y x a b ≡ y' * w + x'
  neighbour-position w y x a b y' x' near =
      let row : y + a - 1 ≡ y' = omega arith in
      let column : x + b - 1 ≡ x' = omega arith in rw (row, column) refl
