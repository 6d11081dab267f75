-- ===== src/Api/Tests.antt =====
-- The routes at concrete rows, and the instances of their theorems.
use honeywatch.Prelude.{
  text_eq, codes, ℕ, ◌*◌, ◌≤◌, ◌≡◌, refl, String, true, List, map, Option, none, some, max, filter,
  length, take, drop, All,
}
use honeywatch.Api.Deps.{ApiSettings, Credentials, verify_credentials}
use honeywatch.Api.App.{Request, Outside, handle}
use honeywatch.Api.App.Access.{Guarded, handle-Guarded}
use mathlib.Core.List.{Perm}
use honeywatch.Prelude.Sort.{IsSorted}
use honeywatch.Analysis.Country.{CountryCount, precedes}
use honeywatch.Analysis.Country.Totals.{counted}
use honeywatch.Analysis.Geoip.Resolve.{IsValid}
use honeywatch.Analysis.Risk.{IpProfile}
use honeywatch.Analysis.Tests.{ip_address, city, resolver, city-ne-broken, resolver-IsValid}
use honeywatch.Db.Repository.{listed, get_ip_aggregates_for_ranking}
use honeywatch.Db.Tests.{stable, table}
use honeywatch.Api.Routes.Analysis.{riskier, profile_of, ranking}
use honeywatch.Api.Routes.Analysis.Ranking.{ranking_lem}
use honeywatch.Api.Base.{ok, error}
use honeywatch.Api.Routes.Geo.{get_country_summary}
use honeywatch.Api.Routes.Geo.Countries.{lies_in, get_country_summary_lem}

abbrev iso : ℕ → String
iso t = "2026-01-01T00:00:00"

ranking_lem_example :
    (whole : List IpProfile) × (ranking stable iso 1 none 9000 table ≡ take 1 whole)
    × Perm whole (
        map
          (profile_of iso)
          (get_ip_aggregates_for_ranking stable none 9000 (max (1 * 3) 30) table))
    × IsSorted riskier (ranking stable iso 1 none 9000 table)
    × All (λ p. All (λ q. riskier p q ≡ true) (drop 1 whole)) (take 1 whole)
    × (length (ranking stable iso 1 none 9000 table) ≤ 1)
ranking_lem_example = ranking_lem stable iso 1 none 9000 table

abbrev fromisoformat : String → Option ℕ
fromisoformat s = some 1000

get_country_summary_lem_example :
    (whole : List CountryCount) × ((get_country_summary ip_address city stable fromisoformat
        (some "2026-01-01")
        none
        table
        resolver).1
      ≡ ok (take 1000 whole))
    × IsSorted precedes whole
    × ((c : String)
        → counted c whole
          ≡ length (
              filter
                (lies_in ip_address city stable resolver c)
                (filter (listed none none (some 1000) none) table)))
    × IsValid ip_address city
        (get_country_summary ip_address city stable fromisoformat
          (some "2026-01-01")
          none
          table
          resolver).0
get_country_summary_lem_example =
    get_country_summary_lem ip_address city stable city-ne-broken fromisoformat (some "2026-01-01")
      none (some 1000) none table resolver refl resolver-IsValid

abbrev outside : Outside
outside = record {
  order = stable;
  date_trunc = λ unit t. some t;
  isoformat = λ t. "";
  fromisoformat = λ s. none;
  ip_address = ip_address;
  city = city;
  database_answers = true;
  redis_answers = true;
}

abbrev api_settings : ApiSettings
api_settings = record { auth_user = codes "admin"; auth_password = codes "secret" }

abbrev wrong : Option Credentials
wrong = some (record { username = codes "admin"; password = codes "guess" })

-- a wrong password is refused, and the health check asks for none
refused_run :
    (handle outside table 90000000000 api_settings wrong (Request.summary "24h") resolver).1
    ≡ error 401
unfolding handle verify_credentials text_eq
refused_run = refl

handle-Guarded_example :
    Guarded outside table 90000000000 api_settings wrong
      (Request.summary "24h")
      resolver
      (handle outside table 90000000000 api_settings wrong (Request.summary "24h") resolver)
handle-Guarded_example =
    handle-Guarded outside table 90000000000 api_settings wrong (Request.summary "24h") resolver
