-- ===== src/Api/Routes/Analysis/Ranking.antt =====
-- The ranking by risk, and the counts by severity.
use mathlib.Core.List.{Perm}
use honeywatch.Prelude.{
  ℕ, ◌*◌, ◌≤◌, ◌≡◌, refl, sym, ap, ◌∙◌, inl, inr, max, String, true, false, List, [], ◌∷◌, map,
  Option, arith, length, length-take, take, drop, filter, str_eq, eq_iff, All, Bool-cases,
  if◌then◌else◌,
}
use honeywatch.Prelude.Sort.{
  sort, IsSorted, sort-IsSorted, sort-perm, take-IsSorted, take_before_drop,
}
use honeywatch.Prelude.Groups.{distinct, contains}
use honeywatch.Analysis.Risk.{IpProfile}
use honeywatch.Db.Models.{AttackEventModel}
use honeywatch.Db.Query.{OrderBy, values}
use honeywatch.Db.Repository.{selected, count_by_severity, get_ip_aggregates_for_ranking}
use honeywatch.Api.Routes.Analysis.{get_or_zero, profile_of, riskier, ranking}

riskier_total : (p q : IpProfile) → riskier p q ≡ false → riskier q p ≡ true
riskier_total p q h = ground arith

riskier_trans : (p q r : IpProfile) → riskier p q ≡ true → riskier q r ≡ true → riskier p r ≡ true
riskier_trans p q r h k = ground arith

module _ (order : OrderBy) (isoformat : ℕ → String) (limit : ℕ) (since : Option ℕ) (until : ℕ)
    (rows : List AttackEventModel) where
  -- The ranking has at most as many profiles as asked for, by falling scores, and is the head of all
  -- the candidates' profiles; no candidate that is left out has a higher score than one that is in.
  pub ranking_lem :
      (all : List IpProfile) × (ranking order isoformat limit since until rows ≡ take limit all)
      × Perm all (
          map
            (profile_of isoformat)
            (get_ip_aggregates_for_ranking order since until (max (limit * 3) 30) rows))
      × IsSorted riskier (ranking order isoformat limit since until rows)
      × All (λ p. All (λ q. riskier p q ≡ true) (drop limit all)) (take limit all)
      × (length (ranking order isoformat limit since until rows) ≤ limit)
  ranking_lem =
      let profiles : List IpProfile =
        map (profile_of isoformat)
          (get_ip_aggregates_for_ranking order since until (max (limit * 3) 30) rows) in
      let sorted : IsSorted riskier (sort riskier profiles) =
        sort-IsSorted riskier riskier_total riskier_trans profiles in
      (
        sort riskier profiles,
        refl,
        sort-perm riskier profiles,
        take-IsSorted riskier limit (sort riskier profiles) sorted,
        take_before_drop riskier limit (sort riskier profiles) sorted,
        omega (arith, length-take limit (sort riskier profiles)),
      )

-- what the rows of a column count under a value
abbrev pub occurrences : String → List String → ℕ
occurrences s l = length (filter (λ t. str_eq t s) l)

-- the dictionary of the counts of some keys
abbrev tally : List String → List String → List (String × ℕ)
tally keys l = map (λ s. (s, occurrences s l)) keys

get_or_zero-tally :
    (k : String) (keys l : List String)
    → get_or_zero k (tally keys l) ≡ (if contains str_eq k keys then occurrences k l else 0)
get_or_zero-tally k [] l = refl
get_or_zero-tally k (s ∷ keys) l =
    let e : str_eq s k ≡ true → s ≡ k = (eq_iff s k).0 in
    let swap : str_eq k s ≡ str_eq s k = str_eq_comm k s in
    elim (Bool-cases (str_eq s k)) [
      | inl h ↦ rw (swap, h) (ap (λ x. occurrences x l) (e h))
      | inr h ↦ rw (swap, h) (get_or_zero-tally k keys l)
    ]
  where
    str_eq_comm : (s t : String) → str_eq s t ≡ str_eq t s
    str_eq_comm s t = ground (arith, eq_iff s t, eq_iff t s)

contains-distinct :
    (k : String) (l : List String) → contains str_eq k (distinct str_eq l) ≡ contains str_eq k l
contains-distinct k [] = refl
contains-distinct k (s ∷ l) = elim (Bool-cases (contains str_eq s l)) [
  | inl h ↦ rw h (ground (arith, contains-distinct k l, same))
  | inr h ↦ rw h (ground (arith, contains-distinct k l))
]
  where
    same : str_eq k s ≡ true → contains str_eq k l ≡ contains str_eq s l
    same e = ap (λ z. contains str_eq z l) ((eq_iff k s).0 e)

occurrences_none :
    (k : String) (l : List String) → contains str_eq k l ≡ false → occurrences k l ≡ 0
occurrences_none k [] h = refl
occurrences_none k (s ∷ l) h = ground (arith, occurrences_none k l, eq_iff s k, eq_iff k s)

-- The count that is read for a severity, 0 where there is none, is the number of the period's events
-- of this severity.
pub severity_count :
    (since : Option ℕ) (until : ℕ) (rows : List AttackEventModel) (level : String)
    → get_or_zero level (count_by_severity since until rows)
      ≡ occurrences level (values (λ r. r.severity) (selected since until rows))
unfolding count_by_severity
severity_count since until rows level =
    let found : List String = values (λ r. r.severity) (selected since until rows) in
    get_or_zero-tally level (distinct str_eq found) found
    ∙ elim (Bool-cases (contains str_eq level found)) [
      | inl h ↦ rw (contains-distinct level found, h)
      | inr h ↦ rw (contains-distinct level found, h) (sym (occurrences_none level found h))
    ]
