-- ===== src/Analysis/Country/Totals.antt =====
-- The counts by country add up, and come in the order of the ranking.
use mathlib.Core.Path.{ap₂}
use honeywatch.Prelude.{
  ℕ, ◌+◌, ◌≡◌, refl, ap, ◌∙◌, ◌≢◌, inl, inr, String, codes, Bool, true, false, ◌&&◌, List, [], ◌∷◌,
  map, Option, none, some, arith, take, str_eq, eq_iff, text_leb_total, text_leb_trans, Bool-cases,
  if◌then◌else◌,
}
use honeywatch.Prelude.Sort.{sort, IsSorted, sort-IsSorted, sum_by, sum_by-sort}
use honeywatch.Analysis.Geoip.{
  GeoLocation, unresolved, Resolver, IpAddress, CityResponse, found, address_not_found, broken,
  is_special, lookup, resolve,
}
use honeywatch.Analysis.Geoip.Resolve.{IsValid, place, answer_text, answer, resolve-Answers}
use honeywatch.Analysis.Country.{
  unknown_country, CountryCount, TotalsDict, add, key_of, precedes, to_country, tally, ranked,
  aggregate,
}

-- the events that the dictionary counts under a code
abbrev amount : String → TotalsDict → ℕ
amount c = sum_by (λ e. if str_eq e.0 c then e.1 else 0)

-- the events that the list counts under a code
abbrev pub counted : String → List CountryCount → ℕ
counted c = sum_by (λ e. if str_eq e.country_code c then e.count else 0)

amount-add :
    (c key : String) (n : ℕ) (t : TotalsDict)
    → amount c (add key n t) ≡ amount c t + (if str_eq key c then n else 0)
unfolding add
amount-add c key n [] = omega arith
amount-add c key n ((k, m) ∷ t) =
    ground (arith, eq_iff k key, eq_iff key c, eq_iff k c, amount-add c key n t)

counted-map : (c : String) (t : TotalsDict) → counted c (map to_country t) ≡ amount c t
counted-map c [] = refl
counted-map c (e ∷ t) = omega (arith, counted-map c t)

precedes_total : (x y : CountryCount) → precedes x y ≡ false → precedes y x ≡ true
precedes_total x y h = ground (arith, text_leb_total (codes x.country_code) (codes y.country_code))

precedes_trans :
    (x y z : CountryCount) → precedes x y ≡ true → precedes y z ≡ true → precedes x z ≡ true
precedes_trans x y z h i =
    ground
      (arith, text_leb_trans (codes x.country_code) (codes y.country_code) (codes z.country_code))

-- the code that the answer for an address stands for
abbrev pub code_of : Option GeoLocation → String
code_of none = unknown_country
code_of (some loc) = key_of loc

module _ (ip_address : String → Option IpAddress) (city : String → CityResponse) where
  -- The events of the addresses that lie in the country, or in none that is known.
  abbrev pub expected : Resolver → String → List (String × ℕ) → ℕ
  expected r c =
      sum_by (λ e. if str_eq (code_of (answer ip_address city r (some e.0))) c then e.1 else 0)

  module _ (working : (ip : String) → city ip ≢ broken) where
    lookup-some : (o : CityResponse) → o ≢ broken → (loc : GeoLocation) × (lookup o ≡ some loc)
    unfolding lookup
    lookup-some (found loc) h = (loc, refl)
    lookup-some address_not_found h = (unresolved, refl)
    lookup-some broken h = absurd (h refl)

    place-some :
        (o : Option IpAddress) (ip : String)
        → (loc : GeoLocation) × (place ip_address city o ip ≡ some loc)
    place-some none ip = (unresolved, refl)
    place-some (some a) ip = elim (Bool-cases (is_special a)) [
      | inl h ↦ rw h (unresolved, refl)
      | inr h ↦ rw h (lookup-some (city ip) (working ip))
    ]

    -- While the database can be read, every call has an answer.
    pub answer-some :
        (r : Resolver) (ip : String)
        → (loc : GeoLocation) × (answer ip_address city r (some ip) ≡ some loc)
    answer-some r ip = elim (Bool-cases (r.enabled && r.has_reader)) [
      | inr h ↦ rw h (unresolved, refl)
      | inl h ↦ elim (Bool-cases (str_eq ip "")) [
        | inl e ↦ rw (h, e) (unresolved, refl)
        | inr e ↦ rw (h, e) (place-some (ip_address ip) ip)
      ]
    ]

    -- A resolver that is as enabled and as loaded answers alike.
    expected_same :
        (q r : Resolver) (c : String) (l : List (String × ℕ))
        → q.enabled ≡ r.enabled
        → q.has_reader ≡ r.has_reader
        → expected q c l ≡ expected r c l
    expected_same q r c l h k =
        ap
          (λ (b : Bool).
            sum_by
              (λ e.
                if str_eq
                  (code_of (if b then answer_text ip_address city (some e.0) else some unresolved))
                  c
                then e.1
                else 0)
              l)
          (ap₂ ◌&&◌ h k)

    -- What a tally of the list gives, from a dictionary and a resolver.
    record Tallied (l : List (String × ℕ)) (t : TotalsDict) (r : Resolver)
        (q : Resolver × Option TotalsDict) : Type 0 where
      totals : TotalsDict
      result : q.1 ≡ some totals
      valid : IsValid ip_address city q.0
      amounts : (c : String) → amount c totals ≡ amount c t + expected r c l

    tally-Tallied :
        (l : List (String × ℕ)) (t : TotalsDict) (r : Resolver)
        → IsValid ip_address city r
        → Tallied l t r (tally ip_address city l t r)
    unfolding tally
    tally-Tallied [] t r v = record {
      totals = t;
      result = refl;
      valid = v;
      amounts = λ c. omega arith;
    }
    tally-Tallied ((ip, n) ∷ l) t r v =
        let a = resolve-Answers ip_address city (some ip) r v in
        let (loc, known) = answer-some r ip in
        let rest =
          tally-Tallied l (add (key_of loc) n t) (resolve ip_address city (some ip) r).0 a.valid in
        let e : (resolve ip_address city (some ip) r).1 ≡ some loc = a.result ∙ known in
        rw e (record {
          totals = rest.totals;
          result = rest.result;
          valid = rest.valid;
          amounts = λ c. rw known (
              omega (
                arith,
                rest.amounts c,
                amount-add c (key_of loc) n t,
                expected_same (resolve ip_address city (some ip) r).0 r c l a.enabled a.has_reader,
              ));
        })

    -- While the database can be read, `aggregate` lists the countries in the order of the ranking, cut
    -- to the limit, from a list that counts for each code exactly the events of the addresses that
    -- resolve to it, those of no known country under `UNKNOWN`. The resolver's cache has no influence,
    -- and stays valid.
    pub aggregate_lem :
        (ip_counts : List (String × ℕ)) (max_countries : ℕ) (r : Resolver)
        → IsValid ip_address city r
        → (all : List CountryCount) × ((aggregate ip_address city ip_counts max_countries r).1
            ≡ some (take max_countries all))
          × IsSorted precedes all
          × ((c : String) → counted c all ≡ expected r c ip_counts)
          × IsValid ip_address city (aggregate ip_address city ip_counts max_countries r).0
    unfolding aggregate
    aggregate_lem ip_counts max_countries r v =
        let w = tally-Tallied ip_counts [] r v in
        let all : List CountryCount = sort precedes (map to_country w.totals) in
        (
          all,
          ap (ranked ip_address city max_countries) w.result,
          sort-IsSorted precedes precedes_total precedes_trans (map to_country w.totals),
          (λ c. omega (
            arith,
            sum_by-sort precedes (λ e. if str_eq e.country_code c then e.count else 0)
                (map to_country w.totals),
            counted-map c w.totals,
            w.amounts c,
          )),
          w.valid,
        )
