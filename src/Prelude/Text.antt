-- ===== src/Prelude/Text.antt =====
-- Go strings as lists of bytes. `str` stays shut in proofs, so literals stay small.
use Prim.Native.Nat.{ℕ, ◌<◌}
use Prim.Native.Char.{code}
use Prim.Native.String.{String}
use mathlib.Core.Bool.{Bool, true, false, ◌&&◌, ◌||◌}
use mathlib.Core.List.{List, [], ◌∷◌}
use mathlib.Core.Logic.{◌≢◌, ◌↔◌, inl, inr}
use mathlib.Core.Path.{◌≡◌, refl, sym}
use native.Mathlib.Omega.{arith}
use vkr.Prelude.Tests.{ltb, ◌==◌, Bool-cases}
use vkr.Prelude.Lists.{All}

abbrev pub Text : Type 0
Text = List ℕ

-- The bytes of an ASCII literal.
unfoldable pub str : String → Text
str String.[] = []
str (String.◌∷◌ c s) = code c ∷ str s

-- `==` on strings, and `hmac.Equal` on byte slices.
unfoldable pub eq_text : Text → Text → Bool
eq_text [] [] = true
eq_text (a ∷ s) (b ∷ t) = a == b && eq_text s t
eq_text _ _ = false

-- `<` on strings, byte by byte.
unfoldable pub ltb_text : Text → Text → Bool
ltb_text s [] = false
ltb_text [] (b ∷ t) = true
ltb_text (a ∷ s) (b ∷ t) = ltb a b || a == b && ltb_text s t

pub eq_text_sound : (s t : Text) → eq_text s t ≡ true → s ≡ t
unfolding eq_text
eq_text_sound [] [] h = refl
eq_text_sound [] (b ∷ t) h = cc
eq_text_sound (a ∷ s) [] h = cc
eq_text_sound (a ∷ s) (b ∷ t) h = ground (arith, eq_text_sound s t)

pub eq_text_refl : (s : Text) → eq_text s s ≡ true
unfolding eq_text
eq_text_refl [] = refl
eq_text_refl (a ∷ s) = ground (arith, eq_text_refl s)

pub eq_text_complete : (s t : Text) → s ≡ t → eq_text s t ≡ true
eq_text_complete s t e = rw e (eq_text_refl t)

pub eq_text_iff : (s t : Text) → (eq_text s t ≡ true) ↔ (s ≡ t)
eq_text_iff s t = (eq_text_sound s t, eq_text_complete s t)

pub eq_text_swap : (s t : Text) → eq_text s t ≡ false → eq_text t s ≡ false
eq_text_swap s t n = elim (Bool-cases (eq_text t s)) [
  | inr other ↦ other
  | inl same ↦ absurd (cc (n, eq_text_complete s t (sym (eq_text_sound t s same))))
]

-- No two of the texts are the same.
abbrev pub AreDistinct : List Text → Type 0
AreDistinct [] = Unit
AreDistinct (s ∷ ts) = All (λ t. eq_text s t ≡ false) ts × AreDistinct ts

abbrev pub IsByte : ℕ → Type 0
IsByte b = b < 256

abbrev pub Lacks : ℕ → Text → Type 0
Lacks sep = All (λ c. c ≢ sep)
