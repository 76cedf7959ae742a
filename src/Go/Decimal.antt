-- ===== src/Go/Decimal.antt =====
-- `%d` and `strconv.ParseInt(s, 10, 64)`: the decimal print of an integer, and its parser.
use vkr.Prelude.{
  ℕ, zero, suc, ◌+◌, ◌-◌, ◌*◌, ◌/◌, ◌%◌, ◌^◌, ◌≤◌, ◌<◌, ◌≡◌, refl, Bool, true, false, ◌&&◌, Option,
  none, some, [], ◌∷◌, arith, ltb, leb, ◌==◌, if◌then◌else◌, All, Bool-cases, inl, inr,
}
use vkr.Prelude.Int.{ℤ, pos, negsuc, Fits}
use vkr.Prelude.Text.{Text}

-- The digits of `n` in front of `out`; a number has fewer digits than its own value plus one.
digits : ℕ → ℕ → Text → Text
digits zero n out = out
digits (suc fuel) n out =
    let more = digits fuel (n / 10) ((b'0' + n % 10) ∷ out) in
    if ltb n 10 then (b'0' + n) ∷ out else more

unfoldable pub format_nat : ℕ → Text
unfolding digits
format_nat n = digits (suc n) n []

unfoldable pub format_int : ℤ → Text
unfolding format_nat
format_int (pos n) = format_nat n
format_int (negsuc n) = b'-' ∷ format_nat (suc n)

abbrev max_uint64 : ℕ
max_uint64 = 2 ^ 64 - 1

-- Decimal digits behind the value `n` read so far. Where a uint64 overflows it is the largest, whatever
-- follows.
scan : ℕ → Text → Option ℕ
scan n [] = some n
scan n (c ∷ s) =
    let rest = scan (n * 10 + (c - b'0')) s in
    if leb b'0' c && leb c b'9'
    then (if ltb max_uint64 (n * 10 + (c - b'0')) then some max_uint64 else rest)
    else none

unfoldable pub parse_nat : Text → Option ℕ
unfolding scan
parse_nat [] = none
parse_nat (c ∷ s) = scan 0 (c ∷ s)

-- What a range error returns beside the error: the nearest int64.
pub data Parsed : Type 0 where
  parsed : ℤ → Parsed
  out_of_range : ℤ → Parsed
  bad_syntax : Parsed

abbrev pub max_int64 : ℕ
max_int64 = 2 ^ 63 - 1

abbrev of_magnitude : Bool → Option ℕ → Parsed
of_magnitude negative none = bad_syntax
of_magnitude false (some n) =
    if leb n max_int64 then parsed (pos n) else out_of_range (pos max_int64)
of_magnitude true (some zero) = parsed (pos 0)
of_magnitude true (some (suc n)) =
    if leb n max_int64 then parsed (negsuc n) else out_of_range (negsuc max_int64)

unfoldable pub parse_int : Text → Parsed
unfolding parse_nat
parse_int [] = bad_syntax
parse_int (c ∷ s) =
    if c == b'-'
    then of_magnitude true (parse_nat s)
    else if c == b'+'
    then of_magnitude false (parse_nat s)
    else of_magnitude false (parse_nat (c ∷ s))

-- Digits are read back to the number in front of what follows.
scan-digits :
    (fuel n : ℕ) (out : Text) → n < fuel → n < 2 ^ 64 → scan 0 (digits fuel n out) ≡ scan n out
unfolding digits scan
scan-digits zero n out h small = elim h [ ]
scan-digits (suc fuel) n out h fits = elim (Bool-cases (ltb n 10)) [
  | inl small ↦ rw small (ground arith)
  | inr big ↦ rw big (
      ground
        (arith, scan-digits fuel (n / 10) ((b'0' + n % 10) ∷ out) (ground arith) (omega arith)))
]

digits-cons :
    (fuel n : ℕ) (out : Text)
    → n < fuel
    → (c : ℕ) × (s : Text) × (digits fuel n out ≡ c ∷ s) × (b'0' ≤ c) × (c ≤ b'9')
unfolding digits
digits-cons zero n out h = elim h [ ]
digits-cons (suc fuel) n out h = elim (Bool-cases (ltb n 10)) [
  | inl small ↦ rw small (b'0' + n, out, refl, omega arith, ground arith)
  | inr big ↦ rw big (digits-cons fuel (n / 10) ((b'0' + n % 10) ∷ out) (ground arith))
]

pub parse_nat-format_nat : (n : ℕ) → n < 2 ^ 64 → parse_nat (format_nat n) ≡ some n
unfolding parse_nat format_nat
parse_nat-format_nat n fits =
    let (c, s, shape, lo, hi) = digits-cons (suc n) n [] (omega arith) in
    let read : scan 0 (digits (suc n) n []) ≡ some n =
      scan-digits (suc n) n [] (omega arith) fits in
    rw shape (rw shape at read)

-- Every int64 is read back from its decimal print.
pub parse_int-format_int : (z : ℤ) → Fits (2 ^ 63) z → parse_int (format_int z) ≡ parsed z
unfolding parse_int format_int format_nat
parse_int-format_int (pos n) h =
    let (c, s, shape, lo, hi) = digits-cons (suc n) n [] (omega arith) in
    let read : parse_nat (digits (suc n) n []) ≡ some n = parse_nat-format_nat n (omega arith) in
    rw shape (ground (arith, rw shape at read))
parse_int-format_int (negsuc n) h =
    let read : parse_nat (digits (suc (suc n)) (suc n) []) ≡ some (suc n) =
      parse_nat-format_nat (suc n) (omega arith) in
    rw read (ground arith)

module _ (P : ℕ → Type 0) (digit : (c : ℕ) → b'0' ≤ c → c ≤ b'9' → P c) where
  digits-All : (fuel n : ℕ) (out : Text) → All P out → All P (digits fuel n out)
  unfolding digits
  digits-All zero n out k = k
  digits-All (suc fuel) n out k = elim (Bool-cases (ltb n 10)) [
    | inl small ↦ rw small (digit (b'0' + n) (omega arith) (ground arith), k)
    | inr big ↦
        rw big (digits-All fuel (n / 10) _ (digit (b'0' + n % 10) (omega arith) (omega arith), k))
  ]

  -- What holds of the digits and of the sign holds of a decimal print.
  pub format_int-All : (z : ℤ) → P b'-' → All P (format_int z)
  unfolding format_int
  format_int-All (pos n) h = digits-All (suc n) n [] tt
  format_int-All (negsuc n) h = (h, digits-All (suc (suc n)) (suc n) [] tt)
