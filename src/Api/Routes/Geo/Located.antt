-- ===== src/Api/Routes/Geo/Located.antt =====
-- The ranking of addresses with their places.
use honeywatch.Prelude.{String, Option, none, some}
use honeywatch.Analysis.Geoip.{GeoLocation, unresolved, Resolver, IpAddress, CityResponse}
use honeywatch.Analysis.Geoip.Resolve.{answer}
use honeywatch.Db.Repository.{IpRow}
use honeywatch.Api.Period.{Period}
use honeywatch.Api.Routes.Geo.{GeoEntry, entry_of}

module _ (ip_address : String → Option IpAddress) (city : String → CityResponse) where
  -- where the database says that the address lies
  abbrev pub place_of : Resolver → String → GeoLocation
  place_of r ip = elim (answer ip_address city r (some ip)) [ none ↦ unresolved | some loc ↦ loc ]

  abbrev pub entry : Resolver → IpRow → GeoEntry
  entry r c = entry_of ip_address city c (place_of r c.source_ip)
