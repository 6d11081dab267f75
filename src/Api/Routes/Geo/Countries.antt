-- ===== src/Api/Routes/Geo/Countries.antt =====
-- The counts by country from the rows of the table to the answer, and the places of the ranking.
use honeywatch.Prelude.{
  ℕ, ◌≡◌, ap, ◌∙◌, ◌≢◌, String, Bool, true, List, map, Option, none, some, length, filter, take,
  str_eq, eq_iff, if◌then◌else◌,
}
use honeywatch.Prelude.Sort.{IsSorted, sum_by-perm}
use honeywatch.Prelude.Groups.{distinct, sum_by-groups_test}
use honeywatch.Analysis.Geoip.{Resolver, IpAddress, CityResponse, broken}
use honeywatch.Analysis.Geoip.Resolve.{IsValid, answer}
use honeywatch.Analysis.Country.{CountryCount, precedes}
use honeywatch.Analysis.Country.Totals.{counted, expected, code_of, aggregate_lem}
use honeywatch.Db.Models.{AttackEventModel}
use honeywatch.Db.Query.{OrderBy}
use honeywatch.Db.Repository.{ip_row, ip_rows, listed, get_ip_counts}
use honeywatch.Db.Repository.Counts.{sum_by-map}
use honeywatch.Api.Base.{ok, or_error}
use honeywatch.Api.Routes.Geo.{range_of, get_country_summary}

module _ (ip_address : String → Option IpAddress) (city : String → CityResponse)
    (order : OrderBy) where
  -- an event whose address lies in the country
  abbrev pub lies_in : Resolver → String → AttackEventModel → Bool
  lies_in r c e = str_eq (code_of (answer ip_address city r (some e.source_ip))) c

  expected-rows :
      (r : Resolver) (c : String) (since until : Option ℕ) (rows : List AttackEventModel)
      → expected ip_address city r c (get_ip_counts order since until rows)
        ≡ length (filter (lies_in r c) (filter (listed none none since until) rows))
  unfolding get_ip_counts
  expected-rows r c since until rows =
      let base : List AttackEventModel = filter (listed none none since until) rows in
      let p : String → Bool = λ ip. str_eq (code_of (answer ip_address city r (some ip))) c in
      sum_by-map (λ e. if p e.0 then e.1 else 0) (λ g. (g.source_ip, g.event_count))
        (order.desc (λ g. g.event_count) (ip_rows base))
      ∙ sum_by-perm (λ _ _. true) (λ g. if p g.source_ip then g.event_count else 0)
          (order.desc_perm (λ g. g.event_count) (ip_rows base))
      ∙ sum_by-map (λ g. if p g.source_ip then g.event_count else 0) (ip_row base)
          (distinct str_eq (map (λ e. e.source_ip) base))
      ∙ sum_by-groups_test str_eq (λ e. e.source_ip) eq_iff p base

  -- For dates that can be read and are in order, and while the GeoIP database can be read, the answer
  -- lists the countries by falling counts and cut to a thousand, and counts under each code exactly
  -- the events of the period whose address resolves to it, whatever the resolver has cached.
  pub get_country_summary_lem :
      ((ip : String) → city ip ≢ broken)
      → (fromisoformat : String → Option ℕ) (start end : Option String) (since until : Option ℕ)
        (rows : List AttackEventModel) (r : Resolver)
      → range_of ip_address city fromisoformat start end ≡ ok (since, until)
      → IsValid ip_address city r
      → (all : List CountryCount) × ((get_country_summary ip_address city order fromisoformat start
            end rows r).1
          ≡ ok (take 1000 all))
        × IsSorted precedes all
        × ((c : String)
            → counted c all
              ≡ length (filter (lies_in r c) (filter (listed none none since until) rows)))
        × IsValid ip_address city
            (get_country_summary ip_address city order fromisoformat start end rows r).0
  unfolding get_country_summary
  get_country_summary_lem working fromisoformat start end since until rows r h v =
      let (all, e, s, k, w) =
        aggregate_lem ip_address city working (get_ip_counts order since until rows) 1000 r v in
      rw h (all, ap (or_error 500) e, s, (λ c. k c ∙ expected-rows r c since until rows), w)
