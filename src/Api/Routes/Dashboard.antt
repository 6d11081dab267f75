-- ===== src/Api/Routes/Dashboard.antt =====
-- src/honeywatch/api/routes/dashboard.py: the summary, the timeline and the ranking of addresses.
use honeywatch.Prelude.{ℕ, String, Bool, ◌&&◌, List, Option, none, some, leb, str_eq, if◌then◌else◌}
use honeywatch.Db.Models.{AttackEventModel}
use honeywatch.Db.Query.{OrderBy}
use honeywatch.Db.Repository.{
  Summary, IpRow, Point, month_sentinel, get_summary, get_top_ips, get_timeline,
}
use honeywatch.Api.Base.{Answer, ok, and_then, or_error, require}
use honeywatch.Api.Period.{Period, period_of, one_year, all, resolve_period_range}

-- a period that matches the pattern, and its range
abbrev pub with_period : {A : Type 0} → String → ℕ → (Period → Option ℕ → ℕ → Answer A) → Answer A
with_period name now k =
    and_then (or_error 422 (period_of name))
      (λ p. and_then (or_error 500 (resolve_period_range p now)) (λ r. k p r.0 r.1))

pub record DashboardSummary : Type 0 where
  pub counts : Summary
  pub period_start : Option ℕ
  pub period_end : ℕ

unfoldable pub get_dashboard_summary : String → ℕ → List AttackEventModel → Answer DashboardSummary
get_dashboard_summary period now rows = with_period period now (λ _ since until.
    ok (record { counts = get_summary since until rows; period_start = since; period_end = until }))

-- `interval_map`, and the pattern of its keys
unfoldable pub interval_map : String → Option ℕ
interval_map s =
    if str_eq s "5m"
    then some 5
    else (if str_eq s "15m" then some 15 else (if str_eq s "1h" then some 60 else none))

-- `if period in ("1y", "all")`
abbrev pub granularity : Period → ℕ → ℕ
granularity one_year minutes = month_sentinel
granularity all minutes = month_sentinel
granularity Period.one_hour minutes = minutes
granularity Period.six_hours minutes = minutes
granularity Period.one_day minutes = minutes
granularity Period.one_week minutes = minutes

unfoldable pub get_dashboard_timeline :
    OrderBy
    → (String → ℕ → Option ℕ)
    → (period interval : String) → ℕ
    → List AttackEventModel
    → Answer (List Point)
get_dashboard_timeline order date_trunc period interval now rows =
    and_then (or_error 422 (interval_map interval)) (λ minutes.
      with_period period now (λ p since until.
        or_error 500 (get_timeline order date_trunc since until (granularity p minutes) rows)))

-- `Query(ge=1, le=100)`
abbrev pub limited : ℕ → Bool
limited limit = leb 1 limit && leb limit 100

unfoldable pub get_dashboard_top_ips :
    OrderBy → ℕ → String → ℕ → List AttackEventModel → Answer (List IpRow)
get_dashboard_top_ips order limit period now rows =
    require (limited limit) 422
      (with_period period now (λ _ since until. ok (get_top_ips order since until limit rows)))
