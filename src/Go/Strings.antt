-- ===== src/Go/Strings.antt =====
-- `strings.Split` and `strings.Join` with a separator of one byte, `strings.HasPrefix`,
-- `strings.TrimPrefix` and `strings.ToLower` (on ASCII).
use vkr.Prelude.{
  ℕ, suc, ◌+◌, ◌≤◌, ◌≡◌, refl, ◌≢◌, ap, Bool, true, ◌&&◌, Option, none, some, List, [], ◌∷◌, ◌++◌,
  map, arith, leb, ◌==◌, if◌then◌else◌, length,
}
use vkr.Prelude.Text.{Text, Lacks, eq_text}

-- The byte goes in front of the first part.
abbrev extend : ℕ → List Text → List Text
extend c [] = (c ∷ []) ∷ []
extend c (p ∷ ps) = (c ∷ p) ∷ ps

unfoldable pub split : ℕ → Text → List Text
split sep [] = [] ∷ []
split sep (c ∷ s) = if c == sep then [] ∷ split sep s else extend c (split sep s)

unfoldable pub join : ℕ → List Text → Text
join sep [] = []
join sep (p ∷ []) = p
join sep (p ∷ q ∷ ps) = p ++ sep ∷ join sep (q ∷ ps)

-- `HasPrefix` and `TrimPrefix` at once: the rest behind the prefix.
unfoldable pub cut_prefix : Text → Text → Option Text
cut_prefix [] s = some s
cut_prefix (a ∷ p) [] = none
cut_prefix (a ∷ p) (b ∷ s) = if a == b then cut_prefix p s else none

-- `strings.Contains`
unfoldable pub contains : Text → Text → Bool
contains [] sub = eq_text sub []
contains (c ∷ s) sub = elim (cut_prefix sub (c ∷ s)) [ some rest ↦ true | none ↦ contains s sub ]

unfoldable pub lower : ℕ → ℕ
lower c = if leb b'A' c && leb c b'Z' then c + 32 else c

unfoldable pub to_lower : Text → Text
unfolding lower
to_lower = map lower

-- How often a byte occurs.
unfoldable pub count : ℕ → Text → ℕ
count sep [] = 0
count sep (c ∷ s) = if c == sep then suc (count sep s) else count sep s

length-extend : (c : ℕ) (ps : List Text) → 1 ≤ length ps → length (extend c ps) ≡ length ps
length-extend c [] h = elim h [ ]
length-extend c (p ∷ ps) h = refl

-- There is one part more than there are separators.
pub length-split : (sep : ℕ) (s : Text) → length (split sep s) ≡ count sep s + 1
unfolding split count
length-split sep [] = omega arith
length-split sep (c ∷ s) =
    let ih = length-split sep s in ground (arith, ih, length-extend c (split sep s))

pub count-append : (sep : ℕ) (s t : Text) → count sep (s ++ t) ≡ count sep s + count sep t
unfolding count
count-append sep [] t = omega arith
count-append sep (c ∷ s) t = ground (arith, count-append sep s t)

split-ne-nil : (sep : ℕ) (s : Text) → split sep s ≢ []
split-ne-nil sep s e = omega (arith, ap length e, length-split sep s)

-- A part without the separator is split off whole.
pub split-append : (sep : ℕ) (p s : Text) → Lacks sep p → split sep (p ++ sep ∷ s) ≡ p ∷ split sep s
unfolding split
split-append sep [] s h = ground arith
split-append sep (c ∷ p) s (hc, hp) = ground (arith, split-append sep p s hp)

pub split_of_Lacks : (sep : ℕ) (p : Text) → Lacks sep p → split sep p ≡ p ∷ []
unfolding split
split_of_Lacks sep [] h = refl
split_of_Lacks sep (c ∷ p) (hc, hp) = ground (arith, split_of_Lacks sep p hp)

join-extend : (sep c : ℕ) (ps : List Text) → ps ≢ [] → join sep (extend c ps) ≡ c ∷ join sep ps
unfolding join
join-extend sep c [] h = absurd (h refl)
join-extend sep c (p ∷ []) h = refl
join-extend sep c (p ∷ q ∷ ps) h = refl

join-nil : (sep : ℕ) (ps : List Text) → ps ≢ [] → join sep ([] ∷ ps) ≡ sep ∷ join sep ps
unfolding join
join-nil sep [] h = absurd (h refl)
join-nil sep (p ∷ ps) h = refl

pub join-split : (sep : ℕ) (s : Text) → join sep (split sep s) ≡ s
unfolding split
join-split sep [] = unfold join in refl
join-split sep (c ∷ s) =
    let full = split-ne-nil sep s in
    ground (
      arith,
      join-split sep s,
      join-extend sep c (split sep s) full,
      join-nil sep (split sep s) full,
    )

pub cut_prefix-append : (p s : Text) → cut_prefix p (p ++ s) ≡ some s
unfolding cut_prefix
cut_prefix-append [] s = refl
cut_prefix-append (a ∷ p) s = ground (arith, cut_prefix-append p s)
