-- ===== src/Api/Routes/Analysis.antt =====
-- src/honeywatch/api/routes/analysis.py: the counts by attack type and severity, the ranking by risk,
-- and the profile of an address. `isoformat` is a parameter.
pub mod Ranking
pub mod Profile
use honeywatch.Prelude.{
  ℕ, ◌*◌, max, String, Bool, true, false, List, [], ◌∷◌, map, Option, none, some, leb, take, str_eq,
  if◌then◌else◌,
}
use honeywatch.Prelude.Sort.{sort}
use honeywatch.Analysis.Risk.{IpProfile, build_profile}
use honeywatch.Db.Models.{AttackEventModel}
use honeywatch.Db.Query.{OrderBy}
use honeywatch.Db.Repository.{
  IpAggregate, count_by_attack_type, count_by_severity, get_ip_aggregate,
  get_ip_aggregates_for_ranking,
}
use honeywatch.Api.Base.{Answer, ok, error, and_then, or_error, require}
use honeywatch.Api.Routes.Dashboard.{with_period, limited}

pub record SeveritySummary : Type 0 where
  pub high : ℕ
  pub medium : ℕ
  pub low : ℕ

-- `d.get(key, 0)`
abbrev pub get_or_zero : String → List (String × ℕ) → ℕ
get_or_zero key [] = 0
get_or_zero key ((k, n) ∷ d) = if str_eq k key then n else get_or_zero key d

-- `x.isoformat() if x else None`
abbrev pub iso : (ℕ → String) → Option ℕ → Option String
iso isoformat none = none
iso isoformat (some t) = some (isoformat t)

abbrev pub profile_of : (ℕ → String) → IpAggregate → IpProfile
profile_of isoformat agg =
    build_profile agg.source_ip (iso isoformat agg.first_seen) (iso isoformat agg.last_seen)
      agg.total_events agg.attack_types agg.severities

-- `sort(key=lambda p: p.risk_score, reverse=True)`
abbrev pub riskier : IpProfile → IpProfile → Bool
riskier p q = leb q.risk_score p.risk_score

unfoldable pub get_attack_types :
    OrderBy → String → ℕ → List AttackEventModel → Answer (List (String × ℕ))
get_attack_types order period now rows =
    with_period period now (λ _ since until. ok (count_by_attack_type order since until rows))

unfoldable pub get_severity_summary : String → ℕ → List AttackEventModel → Answer SeveritySummary
get_severity_summary period now rows = with_period period now (λ _ since until.
    let summary = count_by_severity since until rows in
    ok (record {
      high = get_or_zero "HIGH" summary;
      medium = get_or_zero "MEDIUM" summary;
      low = get_or_zero "LOW" summary;
    }))

-- the body of `get_risk_ranking` after its range is known
abbrev pub ranking :
    OrderBy → (ℕ → String) → ℕ → Option ℕ → ℕ → List AttackEventModel → List IpProfile
ranking order isoformat limit since until rows =
    let aggregates = get_ip_aggregates_for_ranking order since until (max (limit * 3) 30) rows in
    take limit (sort riskier (map (profile_of isoformat) aggregates))

unfoldable pub get_risk_ranking :
    OrderBy → (ℕ → String) → ℕ → String → ℕ → List AttackEventModel → Answer (List IpProfile)
get_risk_ranking order isoformat limit period now rows =
    require (limited limit) 422 (
      with_period period now (λ _ since until. ok (ranking order isoformat limit since until rows)))

unfoldable pub get_ip_profile : (ℕ → String) → String → List AttackEventModel → Answer IpProfile
get_ip_profile isoformat source_ip rows = elim (get_ip_aggregate source_ip rows) [
  | none ↦ error 404
  | some agg ↦ ok (profile_of isoformat agg)
]
