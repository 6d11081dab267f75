-- ===== src/Analysis/Geoip/Resolve.antt =====
-- The resolver with its cache answers as one that asks the database each time.
use honeywatch.Prelude.{
  ◌≤◌, ◌≡◌, refl, sym, inl, inr, String, Bool, true, false, not, ◌&&◌, ◌||◌, Option, none, some,
  arith, length, All, str_eq, Bool-cases, if◌then◌else◌,
}
use honeywatch.Analysis.Geoip.{
  GeoLocation, unresolved, Resolver, IpAddress, CityResponse, is_special, lookup, cache_get,
  set_last, cache_put, warn_unavailable, from_database, from_address, from_text, resolve,
}
use honeywatch.Analysis.Geoip.Lru.{
  length-set_last_hit, length-cache_put, All-set_last, All-cache_put, All-cache_get,
}

active : (a b : Bool) → (a && b) ≡ true → (not a || not b) ≡ false
active a b h = ground arith

inactive : (a b : Bool) → (a && b) ≡ false → (not a || not b) ≡ true
inactive a b h = ground arith

module _ (ip_address : String → Option IpAddress) (city : String → CityResponse) where
  -- The cache holds what the database answers, and no more than its bound.
  pub record IsValid (r : Resolver) : Type 0 where
    pub coherent : All (λ e. lookup (city e.0) ≡ some e.1) r.cache
    pub bounded : length r.cache ≤ r.cache_size

  -- What the address stands for, with no cache.
  abbrev pub place : Option IpAddress → String → Option GeoLocation
  place none ip = some unresolved
  place (some a) ip = if is_special a then some unresolved else lookup (city ip)

  abbrev pub answer_text : Option String → Option GeoLocation
  answer_text none = some unresolved
  answer_text (some ip) = if str_eq ip "" then some unresolved else place (ip_address ip) ip

  abbrev pub answer : Resolver → Option String → Option GeoLocation
  answer r ip = if r.enabled && r.has_reader then answer_text ip else some unresolved

  -- A call that gave `expected`, kept the invariant, and changed nothing but the cache and the flag.
  pub record Answers (r : Resolver) (expected : Option GeoLocation)
      (q : Resolver × Option GeoLocation) : Type 0 where
    pub result : q.1 ≡ expected
    pub valid : IsValid q.0
    pub enabled : q.0.enabled ≡ r.enabled
    pub has_reader : q.0.has_reader ≡ r.has_reader

  same : (r : Resolver) (v : IsValid r) (o : Option GeoLocation) → Answers r o (r, o)
  same r v o = record { result = refl; valid = v; enabled = refl; has_reader = refl }

  cache_put-fields :
      (ip : String) (loc : GeoLocation) (r : Resolver)
      → ((cache_put ip loc r).enabled ≡ r.enabled)
        × ((cache_put ip loc r).has_reader ≡ r.has_reader)
        × ((cache_put ip loc r).cache_size ≡ r.cache_size)
  unfolding cache_put
  cache_put-fields ip loc r = (ground arith, ground arith, ground arith)

  database-Answers :
      (ip : String) (r : Resolver) (o : Option GeoLocation)
      → lookup (city ip) ≡ o
      → IsValid r
      → Answers r o (elim o [ none ↦ (r, none) | some loc ↦ (cache_put ip loc r, some loc) ])
  database-Answers ip r none h v = same r v none
  database-Answers ip r (some loc) h v =
      let (e, l, s) = cache_put-fields ip loc r in
      record {
        result = refl;
        valid = record {
          coherent = All-cache_put (λ e. lookup (city e.0) ≡ some e.1) ip loc r h v.coherent;
          bounded = omega (arith, s, length-cache_put ip loc r v.bounded);
        };
        enabled = e;
        has_reader = l;
      }

  cache-Answers :
      (ip : String) (r : Resolver) (o : Option GeoLocation)
      → cache_get ip r.cache ≡ o
      → IsValid r
      → Answers r (lookup (city ip)) (elim o [
        | none ↦ from_database ip_address city ip r
        | some loc ↦ (record r { cache = set_last ip loc r.cache }, some loc)
      ])
  cache-Answers ip r none h v = database-Answers ip r (lookup (city ip)) refl v
  cache-Answers ip r (some loc) h v =
      let known = All-cache_get (λ e. lookup (city e.0) ≡ some e.1) ip r.cache loc v.coherent h in
      record {
        result = sym known;
        valid = record {
          coherent =
              All-set_last (λ e. lookup (city e.0) ≡ some e.1) ip loc r.cache known v.coherent;
          bounded = omega (arith, v.bounded, length-set_last_hit ip loc loc r.cache h);
        };
        enabled = refl;
        has_reader = refl;
      }

  address-Answers :
      (o : Option IpAddress) (ip : String) (r : Resolver)
      → IsValid r
      → Answers r (place o ip) (from_address ip_address city o ip r)
  address-Answers none ip r v = same r v (some unresolved)
  address-Answers (some a) ip r v = elim (Bool-cases (is_special a)) [
    | inl h ↦ rw h (same r v (some unresolved))
    | inr h ↦ rw h (cache-Answers ip r (cache_get ip r.cache) refl v)
  ]

  text-Answers :
      (o : Option String) (r : Resolver)
      → IsValid r
      → Answers r (answer_text o) (from_text ip_address city o r)
  text-Answers none r v = same r v (some unresolved)
  text-Answers (some ip) r v = elim (Bool-cases (str_eq ip "")) [
    | inl h ↦ rw h (same r v (some unresolved))
    | inr h ↦ rw h (address-Answers (ip_address ip) ip r v)
  ]

  warned-Answers :
      (r : Resolver) → IsValid r → Answers r (some unresolved) (warn_unavailable r, some unresolved)
  warned-Answers r v =
      elim (Bool-cases (r.enabled && not r.has_reader && not r.unavailable_warned)) [
        | inl h ↦ rw h (record {
          result = refl;
          valid = record { coherent = v.coherent; bounded = v.bounded };
          enabled = refl;
          has_reader = refl;
        })
        | inr h ↦ rw h (same r v (some unresolved))
      ]

  -- With a valid cache every call answers what the database says, or unresolved for what is no
  -- public address and while the resolver is off or not loaded; the cache stays valid.
  pub resolve-Answers :
      (ip : Option String) (r : Resolver)
      → IsValid r
      → Answers r (answer r ip) (resolve ip_address city ip r)
  unfolding resolve
  resolve-Answers ip r v = elim (Bool-cases (r.enabled && r.has_reader)) [
    | inl h ↦ rw (h, active r.enabled r.has_reader h) (text-Answers ip r v)
    | inr h ↦ rw (h, inactive r.enabled r.has_reader h) (warned-Answers r v)
  ]
