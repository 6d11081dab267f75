-- ===== src/Analysis/Risk.antt =====
-- src/honeywatch/analysis/ip.py: the risk score and the profile of an address. The quotient
-- `int(total / 200 * 40)` is taken exactly; it is cut at 40, and below 200 events the floats of the
-- source give the same whole number.
pub mod Score
use honeywatch.Prelude.{
  ℕ, suc, ◌+◌, ◌*◌, ◌/◌, min, max, String, codes, Bool, true, false, ◌||◌, List, [], ◌∷◌, Option,
  any, length, leb, str_eq, text_leb, if◌then◌else◌,
}
use honeywatch.Prelude.Sort.{sort}
use honeywatch.Detection.Classifier.{severity_high, severity_medium, severity_low}

abbrev pub frequency_score_max : ℕ
frequency_score_max = 40

abbrev pub diversity_score_max : ℕ
diversity_score_max = 30

abbrev pub diversity_score_per_type : ℕ
diversity_score_per_type = 10

abbrev pub frequency_saturation : ℕ
frequency_saturation = 200

-- `_SEVERITY_SCORE.get(s, 0)`
unfoldable pub severity_points : String → ℕ
severity_points s =
    if str_eq s severity_high
    then 30
    else (if str_eq s severity_medium then 15 else (if str_eq s severity_low then 5 else 0))

-- `x in xs`
abbrev pub contains : String → List String → Bool
contains x xs = any (str_eq x) xs

-- the members of `set(xs)`
unfoldable pub distinct : List String → List String
distinct [] = []
distinct (x ∷ xs) = let rest = distinct xs in if contains x xs then rest else x ∷ rest

abbrev pub str_leb : String → String → Bool
str_leb s t = text_leb (codes s) (codes t)

-- `max((… for s in severities), default=0)`
unfoldable pub max_points : List String → ℕ
max_points [] = 0
max_points (s ∷ l) = max (severity_points s) (max_points l)

unfoldable pub frequency_score : ℕ → ℕ
frequency_score total_events =
    min frequency_score_max (total_events * frequency_score_max / frequency_saturation)

unfoldable pub diversity_score : List String → ℕ
diversity_score attack_types =
    min diversity_score_max (length (distinct attack_types) * diversity_score_per_type)

unfoldable pub calculate : ℕ → List String → List String → ℕ
calculate total_events attack_types severities =
    min 100 (frequency_score total_events + diversity_score attack_types + max_points severities)

unfoldable pub to_risk_level : ℕ → String
to_risk_level score =
    if leb 70 score then severity_high else (if leb 40 score then severity_medium else severity_low)

pub record IpProfile : Type 0 where
  pub source_ip : String
  pub first_seen : Option String
  pub last_seen : Option String
  pub total_events : ℕ
  pub attack_types : List String
  pub risk_score : ℕ
  pub risk_level : String

unfoldable pub build_profile :
    String → Option String → Option String → ℕ → List String → List String → IpProfile
build_profile source_ip first_seen last_seen total_events attack_types severities =
    let risk_score = calculate total_events attack_types severities in
    record {
      source_ip = source_ip;
      first_seen = first_seen;
      last_seen = last_seen;
      total_events = total_events;
      attack_types = sort str_leb (distinct attack_types);
      risk_score = risk_score;
      risk_level = to_risk_level risk_score;
    }
