-- ===== src/Api/App/Plain.antt =====
-- No route answers with an error 401 by itself.
use honeywatch.Prelude.{
  ℕ, ◌≡◌, ◌≢◌, ap, String, Bool, true, false, not, List, [], ◌∷◌, Option, none, some, arith,
  if◌then◌else◌,
}
use honeywatch.Analysis.Geoip.{GeoLocation, Resolver, IpAddress, CityResponse, resolve}
use honeywatch.Analysis.Country.{aggregate}
use honeywatch.Analysis.Risk.{IpProfile}
use honeywatch.Db.Query.{OrderBy}
use honeywatch.Db.Models.{AttackEventModel}
use honeywatch.Db.Repository.{IpRow, get_ip_counts, get_ip_aggregate, IpAggregate}
use honeywatch.Api.Base.{Answer, ok, error, and_then, or_error, require}
use honeywatch.Api.Period.{Period, period_of, resolve_period_range}
use honeywatch.Api.Routes.Attacks.{list_events, accepted, page_of}
use honeywatch.Api.Routes.Dashboard.{
  with_period, limited, get_dashboard_summary, get_dashboard_timeline, get_dashboard_top_ips,
  interval_map,
}
use honeywatch.Api.Routes.Analysis.{
  get_attack_types, get_severity_summary, get_risk_ranking, get_ip_profile, profile_of,
}
use honeywatch.Api.Routes.Geo.{
  GeoEntry, locate, add_entry, locate_answer, get_ip_geo, get_geo_top_ips, get_country_summary,
  parse_iso8601, is_reversed, range_of, summarise, is_some_address,
}
use honeywatch.Api.App.{Request, Response, Outside, as_response, respond}

status : {A : Type 0} {m n : ℕ} → Path (Answer A) (error m) (error n) → m ≡ n
status e = cc

differ-500 : ◌≢◌ {A = ℕ} 500 401
differ-500 e = absurd (omega (arith, e))

differ-422 : ◌≢◌ {A = ℕ} 422 401
differ-422 e = absurd (omega (arith, e))

differ-400 : ◌≢◌ {A = ℕ} 400 401
differ-400 e = absurd (omega (arith, e))

-- An answer that is no error 401.
abbrev pub Plain : {A : Type 0} → Answer A → Type 0
Plain a = a ≢ error 401

module _ {A B : Type 0} where
  and_then-Plain :
      (a : Answer A) (k : A → Answer B) → Plain a → ((x : A) → Plain (k x)) → Plain (and_then a k)
  and_then-Plain (ok x) k p q = q x
  and_then-Plain (error n) k p q = λ e. p (ground arith)

or_error-Plain : {A : Type 0} (n : ℕ) (o : Option A) → n ≢ 401 → Plain (or_error n o)
or_error-Plain n none h = λ e. h (ground arith)
or_error-Plain n (some a) h = λ e. cc

require-Plain :
    {A : Type 0} (b : Bool) (n : ℕ) (a : Answer A) → n ≢ 401 → Plain a → Plain (require b n a)
require-Plain true n a h p = p
require-Plain false n a h p = λ e. h (ground arith)

with_period-Plain :
    {A : Type 0} (period : String) (now : ℕ) (k : Period → Option ℕ → ℕ → Answer A)
    → ((p : Period) (since : Option ℕ) (until : ℕ) → Plain (k p since until))
    → Plain (with_period period now k)
with_period-Plain period now k h =
    and_then-Plain (or_error 422 (period_of period)) _
      (or_error-Plain 422 (period_of period) differ-422)
      (λ p.
        and_then-Plain (or_error 500 (resolve_period_range p now)) _
          (or_error-Plain 500 (resolve_period_range p now) differ-500) (λ r. h p r.0 r.1))

ok-Plain : {A : Type 0} (a : A) → Plain (ok a)
ok-Plain a e = cc

module _ (ip_address : String → Option IpAddress) (city : String → CityResponse) where
  add_entry-Plain :
      (c : IpRow)
      → (rest : Resolver → Resolver × Answer (List GeoEntry)) → ((r : Resolver) → Plain (rest r).1)
      → (x : Resolver × Option GeoLocation) → Plain (add_entry ip_address city c rest x).1
  add_entry-Plain c rest h (r, none) = λ e. differ-500 (status e)
  add_entry-Plain c rest h (r, some loc) = and_then-Plain (rest r).1 _ (h r) (λ l. ok-Plain _)

  locate-Plain : (l : List IpRow) (r : Resolver) → Plain (locate ip_address city l r).1
  unfolding locate
  locate-Plain [] r = ok-Plain []
  locate-Plain (c ∷ l) r =
      add_entry-Plain c (locate ip_address city l) (locate-Plain l)
        (resolve ip_address city (some c.source_ip) r)

  summarise-Plain :
      (order : OrderBy) (rows : List AttackEventModel) (r : Resolver)
      → (a : Answer (Option ℕ × Option ℕ)) → Plain a
      → Plain (summarise ip_address city order rows r a).1
  summarise-Plain order rows r (error n) p = λ e. p (ap error (status e))
  summarise-Plain order rows r (ok (since, until)) p =
      or_error-Plain 500 (aggregate ip_address city (get_ip_counts order since until rows) 1000 r).1
        differ-500

  locate_answer-Plain :
      (a : Answer (List IpRow)) (r : Resolver)
      → Plain a
      → Plain (locate_answer ip_address city a r).1
  locate_answer-Plain (error n) r p = λ e. p (ap error (status e))
  locate_answer-Plain (ok l) r p = locate-Plain l r

-- a date that was read or not
date_of-Plain :
    (o : Option ℕ) → Plain {A = Option ℕ} (elim o [ none ↦ error 400 | some t ↦ ok (some t) ])
date_of-Plain none = λ e. differ-400 (status e)
date_of-Plain (some t) = ok-Plain (some t)

parse_iso8601-Plain :
    (fromisoformat : String → Option ℕ) (s : Option String) → Plain (parse_iso8601 fromisoformat s)
parse_iso8601-Plain fromisoformat none = ok-Plain none
parse_iso8601-Plain fromisoformat (some s) = date_of-Plain (fromisoformat s)

reversed-Plain : (b : Bool) (x : Option ℕ × Option ℕ) → Plain (if b then error 400 else ok x)
reversed-Plain true x = λ e. differ-400 (status e)
reversed-Plain false x = ok-Plain x

range_of-Plain :
    (ip_address : String → Option IpAddress) (city : String → CityResponse)
    → (fromisoformat : String → Option ℕ) (start end : Option String)
    → Plain (range_of ip_address city fromisoformat start end)
range_of-Plain ip_address city fromisoformat start end =
    and_then-Plain (parse_iso8601 fromisoformat start) _ (parse_iso8601-Plain fromisoformat start)
      (λ since.
        and_then-Plain (parse_iso8601 fromisoformat end) _ (parse_iso8601-Plain fromisoformat end)
          (λ until. reversed-Plain (is_reversed since until) (since, until)))

get_ip_profile-Plain :
    (isoformat : ℕ → String) (source_ip : String) (rows : List AttackEventModel)
    → Plain (get_ip_profile isoformat source_ip rows)
unfolding get_ip_profile
get_ip_profile-Plain isoformat source_ip rows = go (get_ip_aggregate source_ip rows)
  where
    go :
        (o : Option IpAggregate)
        → Plain {A = IpProfile}
            (elim o [ none ↦ error 404 | some agg ↦ ok (profile_of isoformat agg) ])
    go none = λ e. absurd (omega (arith, status e))
    go (some agg) = ok-Plain (profile_of isoformat agg)

get_ip_geo-Plain :
    (ip_address : String → Option IpAddress) (city : String → CityResponse) (source_ip : String)
    → (r : Resolver) → Plain (get_ip_geo ip_address city source_ip r).1
unfolding get_ip_geo
get_ip_geo-Plain ip_address city source_ip r =
    go (is_some_address (ip_address source_ip)) (resolve ip_address city (some source_ip) r)
  where
    go :
        (b : Bool) (x : Resolver × Option GeoLocation)
        → Plain {A = GeoLocation}
            (if◌then◌else◌ {A = Resolver × Answer GeoLocation}
              (not b)
              (r, error 400)
              (x.0, or_error 500 x.1)).1
    go false x = λ e. differ-400 (status e)
    go true x = or_error-Plain 500 x.1 differ-500

module _ (o : Outside) (rows : List AttackEventModel) (now : ℕ) where
  -- the answer of a route, as a response
  as_response-Plain :
      {A : Type 0} (c : A → Response) (a : Answer A) → Plain a → Plain (as_response c a)
  as_response-Plain c a p = and_then-Plain a (λ x. ok (c x)) p (λ x. ok-Plain (c x))

  period-Plain :
      {A : Type 0} (period : String) (k : Period → Option ℕ → ℕ → A)
      → Plain (with_period period now (λ p since until. ok (k p since until)))
  period-Plain period k =
      with_period-Plain period now (λ p since until. ok (k p since until))
        (λ p since until. ok-Plain (k p since until))

  limited-Plain :
      {A : Type 0} (limit : ℕ) (period : String) (k : Period → Option ℕ → ℕ → A)
      → Plain (
          require
            (limited limit)
            422
            (with_period period now (λ p since until. ok (k p since until))))
  limited-Plain limit period k =
      require-Plain (limited limit) 422 _ differ-422 (period-Plain period k)

  pub respond-Plain : (request : Request) (r : Resolver) → Plain (respond o rows now request r).1
  unfolding respond list_events get_dashboard_summary get_dashboard_timeline get_dashboard_top_ips
      get_attack_types get_severity_summary get_risk_ranking get_geo_top_ips get_country_summary
  respond-Plain Request.health r = ok-Plain _
  respond-Plain (Request.events protocol source_ip since until page per_page) r =
      as_response-Plain Response.events _ (
        require-Plain (accepted protocol page per_page) 422 _ differ-422 (
          and_then-Plain _ (page_of page per_page) (or_error-Plain 500 _ differ-500)
            (λ (l, n). ok-Plain _)))
  respond-Plain (Request.summary period) r =
      as_response-Plain Response.summary _ (period-Plain period _)
  respond-Plain (Request.timeline period interval) r = as_response-Plain Response.timeline _ (
      and_then-Plain (or_error 422 (interval_map interval)) _
        (or_error-Plain 422 (interval_map interval) differ-422)
        (λ minutes.
          with_period-Plain period now _ (λ p since until. or_error-Plain 500 _ differ-500)))
  respond-Plain (Request.top_ips limit period) r =
      as_response-Plain Response.top_ips _ (limited-Plain limit period _)
  respond-Plain (Request.attack_types period) r =
      as_response-Plain Response.attack_types _ (period-Plain period _)
  respond-Plain (Request.severity_summary period) r =
      as_response-Plain Response.severity_summary _ (period-Plain period _)
  respond-Plain (Request.risk_ranking limit period) r =
      as_response-Plain Response.risk_ranking _ (limited-Plain limit period _)
  respond-Plain (Request.ip_profile source_ip) r =
      as_response-Plain Response.ip_profile _ (get_ip_profile-Plain o.isoformat source_ip rows)
  respond-Plain (Request.ip_geo source_ip) r =
      as_response-Plain Response.ip_geo _ (get_ip_geo-Plain o.ip_address o.city source_ip r)
  respond-Plain (Request.geo_top_ips limit period) r =
      as_response-Plain Response.geo_top_ips _
        (locate_answer-Plain o.ip_address o.city _ r (limited-Plain limit period _))
  respond-Plain (Request.country_summary start end) r =
      as_response-Plain Response.country_summary _ (
        summarise-Plain o.ip_address o.city o.order rows r _
          (range_of-Plain o.ip_address o.city o.fromisoformat start end))
