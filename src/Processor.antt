-- ===== src/Processor.antt =====
-- processor-go/cmd/server/main.go: floats, buffers and loops. Floats are an argument, with the
-- operations that the filters use; an access beyond a buffer's end is a panic, `none`.
pub mod Loops
pub mod Blur
pub mod Filters
pub mod Picture
pub mod Server
pub mod Registry
pub mod Report
pub mod Tests
use vkr.Prelude.{
  ℕ, zero, suc, ◌+◌, ◌%◌, ◌-◌, ◌<◌, Bool, Option, none, some, List, [], ◌∷◌, get_elem?, replicate,
  if◌then◌else◌, ◌>>=◌,
}
use vkr.Prelude.Int.{ℤ, pos, negsuc}
use vkr.Prelude.Text.{Text}

-- float32 and float64. `lit n d` is the float32 nearest to n / d, `to_byte` is `byte(v)`, `to_int` is
-- `int(v)`.
pub record Floats : Type 1 where
  pub F32 : Type 0
  pub F64 : Type 0
  pub lit : ℕ → ℕ → F32
  pub of_byte : ℕ → F32
  pub of_int : ℤ → F32
  pub add : F32 → F32 → F32
  pub mul : F32 → F32 → F32
  pub div : F32 → F32 → F32
  pub neg : F32 → F32
  pub lt : F32 → F32 → Bool
  pub to_byte : F32 → ℕ
  pub widen : F32 → F64
  pub narrow : F64 → F32
  pub of_int64 : ℤ → F64
  pub mul64 : F64 → F64 → F64
  pub div64 : F64 → F64 → F64
  pub lt64 : F64 → F64 → Bool
  pub ceil : F64 → F64
  pub exp : F64 → F64
  pub sqrt : F64 → F64
  pub to_int : F64 → ℤ

-- A byte is one of 256 values.
abbrev pub IsByteValued : Floats → Type 0
IsByteValued f = (v : f.F32) → f.to_byte v < 256

module _ {ℓ} {A : Type ℓ} where
  -- `buf[i]` and `buf[i] = v`.
  abbrev pub at : List A → ℕ → Option A
  at = get_elem?

  unfoldable pub put : List A → ℕ → A → Option (List A)
  put [] i v = none
  put (x ∷ xs) zero v = some (v ∷ xs)
  put (x ∷ xs) (suc i) v = do rest ← put xs i v; some (x ∷ rest)

  -- `make([]A, size)`
  abbrev pub make : ℤ → A → Option (List A)
  make (pos n) a = some (replicate n a)
  make (negsuc n) a = none

-- for (i = lo; i < lo + n; i++) { body }
unfoldable pub for_range {ℓ} : {S : Type ℓ} → ℕ → ℕ → (ℕ → S → Option S) → S → Option S
for_range zero lo body s = some s
for_range (suc n) lo body s = do s' ← body lo s; for_range n (lo + 1) body s'

-- Three values in a row: the channels of a pixel.
unfoldable pub put_pixel {ℓ} : {A : Type ℓ} → List A → ℕ → A → A → A → Option (List A)
put_pixel out idx r g b = do
  with_r ← put out idx r
  with_g ← put with_r (idx + 1) g
  put with_g (idx + 2) b

abbrev pub channels : ℕ
channels = 3

-- `byte(v)` of an int: its low eight bits.
abbrev pub byte_of : ℤ → ℕ
byte_of (pos n) = n % 256
byte_of (negsuc n) = 255 - n % 256

module _ (f : Floats) where
  open f use {F32, lit, of_byte, add, mul, lt, to_byte}

  abbrev pub f32_zero : F32
  f32_zero = lit 0 1

  unfoldable pub clamp_to_byte : F32 → ℕ
  clamp_to_byte v = if lt v f32_zero then 0 else if lt (lit 255 1) v then 255 else to_byte v

  -- `byte(0.299*r + 0.587*g + 0.114*b)`
  abbrev pub gray_value : ℕ → ℕ → ℕ → ℕ
  gray_value r g b = to_byte (
      add (add (mul (lit 299 1000) (of_byte r)) (mul (lit 587 1000) (of_byte g)))
        (mul (lit 114 1000) (of_byte b)))

  -- The gray value of the pixel at `idx`.
  unfoldable pub gray_at : Text → ℕ → Option ℕ
  gray_at input idx = do
    r ← at input idx
    g ← at input (idx + 1)
    b ← at input (idx + 2)
    some (gray_value r g b)
