-- ===== src/Analysis/Geoip.antt =====
-- src/honeywatch/analysis/geoip.py, the resolver: addresses to places through a bounded LRU cache.
-- `ipaddress.ip_address` and the database reader are parameters. A coordinate counts units of a
-- fixed size. `OrderedDict` is the list of its entries, the oldest first.
pub mod Lru
pub mod Resolve
use honeywatch.Prelude.{
  ℕ, suc, String, Bool, true, false, not, ◌&&◌, ◌||◌, List, [], ◌∷◌, ◌++◌, Option, none, some,
  is_some, length, ltb, leb, ◌==◌, str_eq, if◌then◌else◌,
}
use honeywatch.Prelude.Int.{ℤ}

pub record GeoLocation : Type 0 where
  pub country_code : Option String
  pub country_name : Option String
  pub region : Option String
  pub city : Option String
  pub latitude : Option ℤ
  pub longitude : Option ℤ

abbrev pub unresolved : GeoLocation
unresolved = record {
  country_code = none;
  country_name = none;
  region = none;
  city = none;
  latitude = none;
  longitude = none;
}

abbrev pub is_resolved : GeoLocation → Bool
is_resolved loc = is_some loc.country_code

-- the properties of a parsed address that the resolver reads
pub record IpAddress : Type 0 where
  pub is_private : Bool
  pub is_loopback : Bool
  pub is_link_local : Bool
  pub is_reserved : Bool
  pub is_unspecified : Bool
  pub is_multicast : Bool

-- What `reader.city` does: it answers, it raises AddressNotFoundError, or it raises something else.
pub data CityResponse : Type 0 where
  found : GeoLocation → CityResponse
  address_not_found broken : CityResponse

abbrev pub Cache : Type 0
Cache = List (String × GeoLocation)

pub record Resolver : Type 0 where
  pub enabled : Bool
  pub has_reader : Bool
  pub cache_size : ℕ
  pub cache : Cache
  pub unavailable_warned : Bool

-- `GeoIPResolver.load`: the state after `__init__`, by whether the file is there and can be read
abbrev pub load : (enabled file_exists readable : Bool) → (cache_size : ℕ) → Resolver
load enabled file_exists readable cache_size = record {
  enabled = enabled;
  has_reader = file_exists && readable;
  cache_size = cache_size;
  cache = [];
  unavailable_warned = false;
}

abbrev pub is_loaded : Resolver → Bool
is_loaded r = r.has_reader

-- `self._cache.get(ip)`
unfoldable pub cache_get : String → Cache → Option GeoLocation
cache_get ip [] = none
cache_get ip ((k, v) ∷ c) = if str_eq k ip then some v else cache_get ip c

-- the cache without the entry
unfoldable pub without : String → Cache → Cache
without ip [] = []
without ip ((k, v) ∷ c) = let rest = without ip c in if str_eq k ip then rest else (k, v) ∷ rest

-- `self._cache[ip] = loc; self._cache.move_to_end(ip)`, and `move_to_end` of an entry that is there
abbrev pub set_last : String → GeoLocation → Cache → Cache
set_last ip loc c = without ip c ++ (ip, loc) ∷ []

-- `while len(cache) > size: cache.popitem(last=False)`
unfoldable pub evict : ℕ → Cache → Cache
evict size [] = []
evict size (e ∷ c) = let rest = evict size c in if ltb size (suc (length c)) then rest else e ∷ c

unfoldable pub cache_put : String → GeoLocation → Resolver → Resolver
cache_put ip loc r =
    if leb r.cache_size 0
    then r
    else record r { cache = evict r.cache_size (set_last ip loc r.cache) }

unfoldable pub is_special : IpAddress → Bool
is_special a =
    a.is_private
    || (a.is_loopback
        || (a.is_link_local || (a.is_reserved || (a.is_unspecified || a.is_multicast))))

-- `_lookup`; `none` where the reader raises
unfoldable pub lookup : CityResponse → Option GeoLocation
lookup (found loc) = some loc
lookup address_not_found = some unresolved
lookup broken = none

-- the warning for a database that is not there is logged once
abbrev pub warn_unavailable : Resolver → Resolver
warn_unavailable r =
    if r.enabled && not r.has_reader && not r.unavailable_warned
    then record r { unavailable_warned = true }
    else r

module _ (ip_address : String → Option IpAddress) (city : String → CityResponse) where
  -- step 5 and 6: the database, then the cache
  abbrev pub from_database : String → Resolver → Resolver × Option GeoLocation
  from_database ip r = elim (lookup (city ip)) [
    | none ↦ (r, none)
    | some loc ↦ (cache_put ip loc r, some loc)
  ]

  -- step 4: the cache
  abbrev pub from_cache : String → Resolver → Resolver × Option GeoLocation
  from_cache ip r = elim (cache_get ip r.cache) [
    | none ↦ from_database ip r
    | some loc ↦ (record r { cache = set_last ip loc r.cache }, some loc)
  ]

  -- step 3: only public addresses are looked up
  abbrev pub from_address : Option IpAddress → String → Resolver → Resolver × Option GeoLocation
  from_address none ip r = (r, some unresolved)
  from_address (some a) ip r = if is_special a then (r, some unresolved) else from_cache ip r

  -- step 2: what is no address
  abbrev pub from_text : Option String → Resolver → Resolver × Option GeoLocation
  from_text none r = (r, some unresolved)
  from_text (some ip) r =
      if str_eq ip "" then (r, some unresolved) else from_address (ip_address ip) ip r

  -- the new state and the place; no place where the reader raises
  unfoldable pub resolve : Option String → Resolver → Resolver × Option GeoLocation
  resolve ip r =
      if not r.enabled || not r.has_reader
      then (warn_unavailable r, some unresolved)
      else from_text ip r

-- `close`
unfoldable pub close : Resolver → Resolver
close r = if r.has_reader then record r { has_reader = false } else r
