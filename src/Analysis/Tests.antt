-- ===== src/Analysis/Tests.antt =====
-- The analysis at concrete inputs, and the instances of its theorems.
use honeywatch.Prelude.{
  ℕ, ◌≤◌, ◌≡◌, ◌≢◌, ◌↔◌, String, true, false, List, [], ◌∷◌, Option, none, some, arith, length,
  Exists, str_eq, if◌then◌else◌,
}
use honeywatch.Detection.Classifier.{severity_high}
use honeywatch.Analysis.Geoip.{
  GeoLocation, unresolved, Resolver, IpAddress, CityResponse, found, address_not_found, broken,
  resolve, load,
}
use honeywatch.Analysis.Geoip.Resolve.{IsValid, answer, Answers, resolve-Answers}
use honeywatch.Analysis.Risk.{distinct, calculate}
use honeywatch.Analysis.Risk.Score.{calculate_full}

abbrev japan : GeoLocation
japan = record unresolved { country_code = some "JP"; country_name = some "Japan" }

abbrev public_address : IpAddress
public_address = record {
  is_private = false;
  is_loopback = false;
  is_link_local = false;
  is_reserved = false;
  is_unspecified = false;
  is_multicast = false;
}

-- two public addresses and a private one; the rest is no address
abbrev pub ip_address : String → Option IpAddress
ip_address s =
    if str_eq s "1.1.1.1"
    then some public_address
    else (if str_eq s "8.8.8.8"
        then some public_address
        else (if str_eq s "10.0.0.1"
            then some (record public_address { is_private = true })
            else none))

abbrev pub city : String → CityResponse
city s = if str_eq s "1.1.1.1" then found japan else address_not_found

pub city-ne-broken : (s : String) → city s ≢ broken
city-ne-broken s = ground arith

abbrev pub resolver : Resolver
resolver = load true true true 1

pub resolver-IsValid : IsValid ip_address city resolver
resolver-IsValid = record { coherent = tt; bounded = omega arith }

resolve-Answers_example :
    Answers ip_address city resolver
      (answer ip_address city resolver (some "1.1.1.1"))
      (resolve ip_address city (some "1.1.1.1") resolver)
resolve-Answers_example = resolve-Answers ip_address city (some "1.1.1.1") resolver resolver-IsValid

abbrev ip_counts : List (String × ℕ)
ip_counts = ("1.1.1.1", 3) ∷ ("8.8.8.8", 5) ∷ ("10.0.0.1", 1) ∷ []

abbrev types : List String
types = "http_scan" ∷ "brute_force" ∷ "http_scan" ∷ "port_scan" ∷ []

abbrev severities : List String
severities = "LOW" ∷ "HIGH" ∷ []

calculate_full_example :
    (calculate 250 types severities ≡ 100)
    ↔ ((200 ≤ 250) × (3 ≤ length (distinct types)) × Exists (λ s. s ≡ severity_high) severities)
calculate_full_example = calculate_full 250 types severities
