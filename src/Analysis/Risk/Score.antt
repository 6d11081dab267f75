-- ===== src/Analysis/Risk/Score.antt =====
-- The range of the risk score, what raises it, and the profile's list of attack types.
use honeywatch.Prelude.{
  ℕ, ◌+◌, ◌≤◌, ◌≡◌, refl, ap, ◌==◌, ◌∙◌, ◌↔◌, inl, inr, String, codes, true, List, [], ◌∷◌, Option,
  arith, Exists, length, str_eq, eq_iff, text_leb_total, text_leb_trans, Bool-cases, if◌then◌else◌,
}
use honeywatch.Prelude.Sort.{IsSorted, sort-IsSorted, sum_by, sum_by-sort}
use honeywatch.Detection.Classifier.{severity_high}
use honeywatch.Analysis.Risk.{
  severity_points, contains, distinct, str_leb, max_points, frequency_score, diversity_score,
  calculate, to_risk_level, build_profile,
}

severity_points-le : (s : String) → severity_points s ≤ 30
unfolding severity_points
severity_points-le s = ground arith

max_points-le : (l : List String) → max_points l ≤ 30
unfolding max_points
max_points-le [] = omega arith
max_points-le (s ∷ l) = omega (arith, severity_points-le s, max_points-le l)

-- The score is at most 100 without the last cut: the three parts are bounded.
pub calculate_sum :
    (n : ℕ) (types severities : List String)
    → calculate n types severities
      ≡ frequency_score n + diversity_score types + max_points severities
unfolding calculate frequency_score diversity_score
calculate_sum n types severities = omega (arith, max_points-le severities)

severity_points-full : (s : String) → (severity_points s ≡ 30) ↔ (s ≡ severity_high)
unfolding severity_points
severity_points-full s = (
  λ h. (eq_iff s severity_high).0 (ground arith),
  λ h. ground (arith, (eq_iff s severity_high).1 h),
)

max_points-full : (l : List String) → (max_points l ≡ 30) ↔ Exists (λ s. s ≡ severity_high) l
unfolding max_points
max_points-full [] = (λ h. absurd (omega arith), λ h. absurd h)
max_points-full (s ∷ l) =
    let i = severity_points-full s in
    let j = max_points-full l in
    (
      λ h. elim (Bool-cases (severity_points s == 30)) [
        | inl e ↦ inl (i.0 (ground arith))
        | inr e ↦ inr (j.0 (ground (arith, max_points-le l)))
      ],
      λ h. elim h [
        | inl e ↦ omega (arith, i.1 e, max_points-le l)
        | inr e ↦ omega (arith, j.1 e, severity_points-le s)
      ],
    )

-- The score is 100 exactly for two hundred events or more, of three attack types or more, one of
-- which was of severity HIGH.
pub calculate_full :
    (n : ℕ) (types severities : List String)
    → (calculate n types severities ≡ 100)
      ↔ ((200 ≤ n) × (3 ≤ length (distinct types)) × Exists (λ s. s ≡ severity_high) severities)
unfolding frequency_score diversity_score
calculate_full n types severities =
    let i = max_points-full severities in
    (
      λ h. (
        omega (arith, calculate_sum n types severities, max_points-le severities),
        omega (arith, calculate_sum n types severities, max_points-le severities),
        i.0 (omega (arith, calculate_sum n types severities, max_points-le severities)),
      ),
      λ h. omega (arith, calculate_sum n types severities, i.1 h.2, h.0, h.1),
    )

calculate-le : (n : ℕ) (types severities : List String) → calculate n types severities ≤ 100
unfolding calculate
calculate-le n types severities = omega arith

-- how often the text is listed
abbrev pub count : String → List String → ℕ
count x = sum_by (λ y. if str_eq x y then 1 else 0)

contains_same : (x y : String) (l : List String) → str_eq x y ≡ true → contains x l ≡ contains y l
contains_same x y l h = ap (λ z. contains z l) ((eq_iff x y).0 h)

count-distinct :
    (x : String) (l : List String) → count x (distinct l) ≡ (if contains x l then 1 else 0)
unfolding distinct
count-distinct x [] = refl
count-distinct x (y ∷ l) = elim (Bool-cases (contains y l)) [
  | inl h ↦ rw h (ground (arith, count-distinct x l, contains_same x y l))
  | inr h ↦ rw h (ground (arith, count-distinct x l, contains_same x y l))
]

-- A profile lists each observed attack type once and no other, in order, with a score of at most 100
-- and the level of this score.
pub build_profile_lem :
    (ip : String) (first last : Option String) (n : ℕ) (types severities : List String)
    → let p = build_profile ip first last n types severities in
      ((x : String) → count x p.attack_types ≡ (if contains x types then 1 else 0))
      × IsSorted str_leb p.attack_types
      × (p.risk_score ≤ 100)
      × (p.risk_level ≡ to_risk_level p.risk_score)
unfolding build_profile
build_profile_lem ip first last n types severities = (
  (λ x.
      sum_by-sort str_leb (λ y. if str_eq x y then 1 else 0) (distinct types)
      ∙ count-distinct x types),
  sort-IsSorted str_leb (λ x y. text_leb_total (codes x) (codes y))
      (λ x y z. text_leb_trans (codes x) (codes y) (codes z)) (distinct types),
  calculate-le n types severities,
  refl,
)
