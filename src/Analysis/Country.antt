-- ===== src/Analysis/Country.antt =====
-- src/honeywatch/analysis/geoip.py, the aggregator: counts by address to counts by country.
pub mod Totals
use honeywatch.Prelude.{
  ℕ, ◌+◌, String, codes, Bool, ◌&&◌, ◌||◌, List, [], ◌∷◌, map, Option, none, some, take, ltb, ◌==◌,
  str_eq, text_leb, if◌then◌else◌,
}
use honeywatch.Prelude.Sort.{sort}
use honeywatch.Analysis.Geoip.{GeoLocation, Resolver, IpAddress, CityResponse, resolve}

abbrev pub unknown_country : String
unknown_country = "UNKNOWN"

pub record CountryCount : Type 0 where
  pub country_code : String
  pub count : ℕ

abbrev pub TotalsDict : Type 0
TotalsDict = List (String × ℕ)

-- `totals[key] = totals.get(key, 0) + count`
unfoldable pub add : String → ℕ → TotalsDict → TotalsDict
add key n [] = (key, n) ∷ []
add key n ((k, m) ∷ t) =
    let rest = add key n t in if str_eq k key then (k, m + n) ∷ t else (k, m) ∷ rest

-- the key that a place is counted under
abbrev pub key_of : GeoLocation → String
key_of loc = elim loc.country_code [ none ↦ unknown_country | some code ↦ code ]

-- the key of `sorted`: the count falling, then the code rising
abbrev pub precedes : CountryCount → CountryCount → Bool
precedes a b =
    ltb b.count a.count
    || (a.count == b.count && text_leb (codes a.country_code) (codes b.country_code))

abbrev pub to_country : String × ℕ → CountryCount
to_country e = record { country_code = e.0; count = e.1 }

module _ (ip_address : String → Option IpAddress) (city : String → CityResponse) where
  -- the rest of a round, once the address is resolved; no place means that `resolve` raised
  abbrev pub count_place :
      ℕ
      → (TotalsDict → Resolver → Resolver × Option TotalsDict)
      → TotalsDict
      → Resolver
      → Option GeoLocation
      → Resolver × Option TotalsDict
  count_place n rest t r none = (r, none)
  count_place n rest t r (some loc) = rest (add (key_of loc) n t) r

  -- the loop of `aggregate`
  unfoldable pub tally : List (String × ℕ) → TotalsDict → Resolver → Resolver × Option TotalsDict
  tally [] t r = (r, some t)
  tally ((ip, n) ∷ l) t r =
      count_place n (tally l) t (resolve ip_address city (some ip) r).0
        (resolve ip_address city (some ip) r).1

  abbrev pub ranked : ℕ → Option TotalsDict → Option (List CountryCount)
  ranked max_countries none = none
  ranked max_countries (some t) = some (take max_countries (sort precedes (map to_country t)))

  unfoldable pub aggregate :
      List (String × ℕ) → ℕ → Resolver → Resolver × Option (List CountryCount)
  aggregate ip_counts max_countries r =
      let (r', t) = tally ip_counts [] r in (r', ranked max_countries t)
