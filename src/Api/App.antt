-- ===== src/Api/App.antt =====
-- src/honeywatch/api/main.py: the routes behind the check of the credentials (api/deps.py), and the
-- life of the application. FastAPI checks the credentials of a route before its parameters; a request
-- without a header has none.
pub mod Plain
pub mod Access
use honeywatch.Prelude.{ℕ, String, Text, Bool, true, false, List, Option, none, some, if◌then◌else◌}
use honeywatch.Analysis.Geoip.{GeoLocation, Resolver, IpAddress, CityResponse, close}
use honeywatch.Analysis.Country.{CountryCount}
use honeywatch.Analysis.Risk.{IpProfile}
use honeywatch.Db.Models.{AttackEventModel}
use honeywatch.Db.Query.{OrderBy}
use honeywatch.Db.Repository.{IpRow, Point}
use honeywatch.Db.Session.{Database, init_db, close_db, sessions}
use honeywatch.Api.Base.{Answer, ok, error, and_then}
use honeywatch.Api.Deps.{ApiSettings, Credentials, verify_credentials}
use honeywatch.Api.Routes.Attacks.{EventPage, list_events}
use honeywatch.Api.Routes.Dashboard.{
  DashboardSummary, get_dashboard_summary, get_dashboard_timeline, get_dashboard_top_ips,
}
use honeywatch.Api.Routes.Analysis.{
  SeveritySummary, get_attack_types, get_severity_summary, get_risk_ranking, get_ip_profile,
}
use honeywatch.Api.Routes.Geo.{GeoEntry, get_ip_geo, get_geo_top_ips, get_country_summary}
use honeywatch.Api.Routes.Health.{Health, health_check}

-- a request of a route, with the parameters of its path and query
pub data Request : Type 0 where
  health : Request
  events : Option String → Option String → Option ℕ → Option ℕ → ℕ → ℕ → Request
  summary : String → Request
  timeline : String → String → Request
  top_ips : ℕ → String → Request
  attack_types : String → Request
  severity_summary : String → Request
  risk_ranking : ℕ → String → Request
  ip_profile : String → Request
  ip_geo : String → Request
  geo_top_ips : ℕ → String → Request
  country_summary : Option String → Option String → Request

pub data Response : Type 0 where
  health : Health → Response
  events : EventPage → Response
  summary : DashboardSummary → Response
  timeline : List Point → Response
  top_ips : List IpRow → Response
  attack_types : List (String × ℕ) → Response
  severity_summary : SeveritySummary → Response
  risk_ranking : List IpProfile → Response
  ip_profile : IpProfile → Response
  ip_geo : GeoLocation → Response
  geo_top_ips : List GeoEntry → Response
  country_summary : List CountryCount → Response

abbrev pub as_response : {A : Type 0} → (A → Response) → Answer A → Answer Response
as_response c a = and_then a (λ x. ok (c x))

abbrev pub beside : {A : Type 0} → (A → Response) → Resolver × Answer A → Resolver × Answer Response
beside c (r, a) = (r, as_response c a)

-- what the routes take from outside: the order and the units of the database, the texts of dates, the
-- address parser and the GeoIP reader, and whether the database and Redis answer
pub record Outside : Type 1 where
  pub order : OrderBy
  pub date_trunc : String → ℕ → Option ℕ
  pub isoformat : ℕ → String
  pub fromisoformat : String → Option ℕ
  pub ip_address : String → Option IpAddress
  pub city : String → CityResponse
  pub database_answers : Bool
  pub redis_answers : Bool

-- the route without `AuthUser`
abbrev pub is_public : Request → Bool
is_public Request.health = true
is_public (Request.events protocol source_ip since until page per_page) = false
is_public (Request.summary period) = false
is_public (Request.timeline period interval) = false
is_public (Request.top_ips limit period) = false
is_public (Request.attack_types period) = false
is_public (Request.severity_summary period) = false
is_public (Request.risk_ranking limit period) = false
is_public (Request.ip_profile source_ip) = false
is_public (Request.ip_geo source_ip) = false
is_public (Request.geo_top_ips limit period) = false
is_public (Request.country_summary start end) = false

module _ (o : Outside) (rows : List AttackEventModel) (now : ℕ) where
  -- the route of a request, after its check
  unfoldable pub respond : Request → Resolver → Resolver × Answer Response
  respond Request.health r =
      (r, ok (Response.health (health_check o.database_answers o.redis_answers)))
  respond (Request.events protocol source_ip since until page per_page) r = (
    r,
    as_response Response.events
        (list_events o.order protocol source_ip since until page per_page rows),
  )
  respond (Request.summary period) r =
      (r, as_response Response.summary (get_dashboard_summary period now rows))
  respond (Request.timeline period interval) r = (
    r,
    as_response Response.timeline
        (get_dashboard_timeline o.order o.date_trunc period interval now rows),
  )
  respond (Request.top_ips limit period) r =
      (r, as_response Response.top_ips (get_dashboard_top_ips o.order limit period now rows))
  respond (Request.attack_types period) r =
      (r, as_response Response.attack_types (get_attack_types o.order period now rows))
  respond (Request.severity_summary period) r =
      (r, as_response Response.severity_summary (get_severity_summary period now rows))
  respond (Request.risk_ranking limit period) r = (
    r,
    as_response Response.risk_ranking (get_risk_ranking o.order o.isoformat limit period now rows),
  )
  respond (Request.ip_profile source_ip) r =
      (r, as_response Response.ip_profile (get_ip_profile o.isoformat source_ip rows))
  respond (Request.ip_geo source_ip) r =
      beside Response.ip_geo (get_ip_geo o.ip_address o.city source_ip r)
  respond (Request.geo_top_ips limit period) r =
      beside Response.geo_top_ips
        (get_geo_top_ips o.ip_address o.city o.order limit period now rows r)
  respond (Request.country_summary start end) r =
      beside Response.country_summary
        (get_country_summary o.ip_address o.city o.order o.fromisoformat start end rows r)

  -- `AuthUser` in the parameters of a route
  abbrev pub check : ApiSettings → Option Credentials → Answer Text
  check settings none = error 401
  check settings (some c) = verify_credentials settings c

  abbrev pub after_check :
      Answer Text → (Resolver → Resolver × Answer Response) → Resolver → Resolver × Answer Response
  after_check (ok user) route r = route r
  after_check (error n) route r = (r, error n)

  unfoldable pub handle :
      ApiSettings → Option Credentials → Request → Resolver → Resolver × Answer Response
  handle settings c request r =
      if is_public request
      then respond request r
      else after_check (check settings c) (respond request) r

-- `lifespan`: what is open while the application runs, with the sessions of its requests; an
-- exception of the resolver's `close` does not keep the database open
pub record Application : Type 0 where
  pub geoip_resolver : Option Resolver
  pub database : Database

unfoldable pub startup : Resolver → Database → Application
startup loaded d = record { geoip_resolver = some loaded; database = init_db d }

-- `raises`: does the reader's `close` raise?
abbrev pub close_resolver : Bool → Option Resolver → Option Resolver
close_resolver raises none = none
close_resolver true (some r) = some r
close_resolver false (some r) = some (close r)

unfoldable pub shutdown : Bool → Application → Application
shutdown raises a = record {
  geoip_resolver = close_resolver raises a.geoip_resolver;
  database = close_db a.database;
}

-- the whole life, with a number of sessions in between
unfoldable pub lifespan : Resolver → Database → ℕ → Bool → Application
lifespan loaded d n raises =
    let a = startup loaded d in shutdown raises (record a { database = sessions n a.database })
