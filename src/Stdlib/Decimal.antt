-- ===== src/Stdlib/Decimal.antt =====
-- `str` of an `int` that is not negative: its digits from the last to the first, one for each round.
use honeywatch.Prelude.{
  ℕ, zero, suc, ◌+◌, ◌-◌, ◌*◌, ◌/◌, ◌%◌, ◌≤◌, ◌<◌, ◌≡◌, sym, ap, ◌∙◌, inl, inr, Text, [], ◌∷◌, All,
  arith, ltb, Bool-cases, if◌then◌else◌,
}

-- `out` is what follows the digits
unfoldable pub digits : ℕ → ℕ → Text → Text
digits zero n out = out
digits (suc rounds) n out =
    let rest = digits rounds (n / 10) ((b'0' + n % 10) ∷ out) in
    if ltb n 10 then (b'0' + n) ∷ out else rest

-- There are at most as many digits as the number and one more.
unfoldable pub str : ℕ → Text
str n = digits (suc n) n []

abbrev read : Text → ℕ → ℕ
read [] n = n
read (c ∷ s) n = read s (n * 10 + (c - b'0'))

read-digits : (rounds n : ℕ) (out : Text) → n < rounds → read (digits rounds n out) 0 ≡ read out n
unfolding digits
read-digits zero n out h = absurd (omega arith)
read-digits (suc rounds) n out h = elim (Bool-cases (ltb n 10)) [
  | inl e ↦ rw e (ap (read out) (omega arith))
  | inr e ↦ rw e (
      read-digits rounds (n / 10) ((b'0' + n % 10) ∷ out) (ground arith)
      ∙ ap (read out) (omega arith))
]

-- Different numbers have different texts.
pub str-injective : (m n : ℕ) → str m ≡ str n → m ≡ n
unfolding str
str-injective m n e =
    sym (read-digits (suc m) m [] (omega arith))
    ∙ ap (λ s. read s 0) e
    ∙ read-digits (suc n) n [] (omega arith)

abbrev pub IsDigit : ℕ → Type 0
IsDigit c = (b'0' ≤ c) × (c ≤ b'9')

digits-IsDigit : (rounds n : ℕ) (out : Text) → All IsDigit out → All IsDigit (digits rounds n out)
unfolding digits
digits-IsDigit zero n out a = a
digits-IsDigit (suc rounds) n out a = elim (Bool-cases (ltb n 10)) [
  | inl e ↦ rw e (ground arith, a)
  | inr e ↦ rw e (digits-IsDigit rounds (n / 10) ((b'0' + n % 10) ∷ out) (omega arith, a))
]

pub str-IsDigit : (n : ℕ) → All IsDigit (str n)
unfolding str
str-IsDigit n = digits-IsDigit (suc n) n [] tt
