-- ===== src/Prelude/Result.antt =====
-- What a Go function returns beside an error: a value, or the error, as its message.
use mathlib.Core.Path.{◌≡◌, refl}
use mathlib.Core.Logic.{◌⊎◌, inl, inr}
use vkr.Prelude.Text.{Text}

pub data Result {ℓ} (V : Type ℓ) : Type ℓ where
  err : (message : Text) → Result V
  ok : V → Result V

infixl 5 ◌>>=◌
-- `if err != nil { return err }`
abbrev pub ◌>>=◌ {ℓ₁ ℓ₂} : {V : Type ℓ₁} {W : Type ℓ₂} → Result V → (V → Result W) → Result W
err message >>= next = err message
ok v >>= next = next v

pub Result-cases {ℓ} :
    {V : Type ℓ} (r : Result V) → ((v : V) × (r ≡ ok v)) ⊎ ((e : Text) × (r ≡ err e))
Result-cases (ok v) = inl (v, refl)
Result-cases (err e) = inr (e, refl)
