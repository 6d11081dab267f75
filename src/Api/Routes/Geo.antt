-- ===== src/Api/Routes/Geo.antt =====
-- src/honeywatch/api/routes/geo.py: the places of addresses, and the counts by country. A date in the
-- query is read by the parameter `fromisoformat`; a naive one is taken as UTC. The resolver is shared
-- by the requests, so each route gives its new state too.
pub mod Countries
pub mod Located
use honeywatch.Prelude.{
  ℕ, String, Bool, true, false, not, ◌&&◌, List, [], ◌∷◌, Option, none, some, ltb, str_eq,
  if◌then◌else◌,
}
use honeywatch.Analysis.Geoip.{GeoLocation, Resolver, IpAddress, CityResponse, resolve}
use honeywatch.Analysis.Country.{CountryCount, aggregate}
use honeywatch.Db.Models.{AttackEventModel}
use honeywatch.Db.Query.{OrderBy}
use honeywatch.Db.Repository.{IpRow, get_top_ips, get_ip_counts}
use honeywatch.Api.Base.{Answer, ok, error, and_then, or_error, require}
use honeywatch.Api.Routes.Dashboard.{with_period, limited}

pub record GeoEntry : Type 0 where
  pub source_ip : String
  pub event_count : ℕ
  pub first_seen : Option ℕ
  pub last_seen : Option ℕ
  pub geo : GeoLocation

-- a date of the query, which may be missing
abbrev pub parse_iso8601 : (String → Option ℕ) → Option String → Answer (Option ℕ)
parse_iso8601 fromisoformat none = ok none
parse_iso8601 fromisoformat (some s) = elim (fromisoformat s) [
  | none ↦ error 400
  | some t ↦ ok (some t)
]

-- `since is not None and until is not None and since > until`
abbrev pub is_reversed : Option ℕ → Option ℕ → Bool
is_reversed none until = false
is_reversed (some s) none = false
is_reversed (some s) (some u) = ltb u s

abbrev pub is_some_address : Option IpAddress → Bool
is_some_address none = false
is_some_address (some _) = true

module _ (ip_address : String → Option IpAddress) (city : String → CityResponse) where
  unfoldable pub get_ip_geo : String → Resolver → Resolver × Answer GeoLocation
  get_ip_geo source_ip r =
      if not (is_some_address (ip_address source_ip))
      then (r, error 400)
      else (let (r', place) = resolve ip_address city (some source_ip) r in
          (r', or_error 500 place))

  abbrev pub entry_of : IpRow → GeoLocation → GeoEntry
  entry_of c loc = record {
    source_ip = c.source_ip;
    event_count = c.event_count;
    first_seen = c.first_seen;
    last_seen = c.last_seen;
    geo = loc;
  }

  -- the rest of the loop, once the address is resolved
  abbrev pub add_entry :
      IpRow
      → (Resolver → Resolver × Answer (List GeoEntry))
      → Resolver × Option GeoLocation
      → Resolver × Answer (List GeoEntry)
  add_entry c rest (r, none) = (r, error 500)
  add_entry c rest (r, some loc) =
      let (r', l) = rest r in (r', and_then l (λ entries. ok (entry_of c loc ∷ entries)))

  -- the loop of `get_geo_top_ips`
  unfoldable pub locate : List IpRow → Resolver → Resolver × Answer (List GeoEntry)
  locate [] r = (r, ok [])
  locate (c ∷ l) r = add_entry c (locate l) (resolve ip_address city (some c.source_ip) r)

  -- the addresses that are to be located
  abbrev pub locate_answer : Answer (List IpRow) → Resolver → Resolver × Answer (List GeoEntry)
  locate_answer (error n) r = (r, error n)
  locate_answer (ok l) r = locate l r

  unfoldable pub get_geo_top_ips :
      OrderBy
      → ℕ
      → String
      → ℕ
      → List AttackEventModel
      → Resolver
      → Resolver × Answer (List GeoEntry)
  get_geo_top_ips order limit period now rows r =
      locate_answer
        (require (limited limit) 422
          (with_period period now (λ _ since until. ok (get_top_ips order since until limit rows))))
        r

  -- the query and the counts of a valid range
  abbrev pub summarise :
      OrderBy
      → List AttackEventModel
      → Resolver
      → Answer (Option ℕ × Option ℕ)
      → Resolver × Answer (List CountryCount)
  summarise order rows r (error n) = (r, error n)
  summarise order rows r (ok (since, until)) =
      let (r', l) = aggregate ip_address city (get_ip_counts order since until rows) 1000 r in
      (r', or_error 500 l)

  -- the checks of the dates
  abbrev pub range_of :
      (String → Option ℕ) → Option String → Option String → Answer (Option ℕ × Option ℕ)
  range_of fromisoformat start end = and_then (parse_iso8601 fromisoformat start) (λ since.
      and_then (parse_iso8601 fromisoformat end)
        (λ until. if is_reversed since until then error 400 else ok (since, until)))

  unfoldable pub get_country_summary :
      OrderBy
      → (String → Option ℕ)
      → Option String
      → Option String
      → List AttackEventModel
      → Resolver
      → Resolver × Answer (List CountryCount)
  get_country_summary order fromisoformat start end rows r =
      summarise order rows r (range_of fromisoformat start end)
