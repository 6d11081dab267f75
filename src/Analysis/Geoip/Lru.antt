-- ===== src/Analysis/Geoip/Lru.antt =====
-- The LRU cache: how much it holds, which entries it drops, and what it answers.
use honeywatch.Prelude.{
  ℕ, zero, suc, ◌-◌, ◌≤◌, ◌≡◌, refl, sym, subst, inl, inr, String, true, false, [], ◌∷◌, some,
  arith, length, length-append, drop, All, All-append, ltb, leb, str_eq, eq_iff, Bool-cases,
}
use honeywatch.Analysis.Geoip.{
  GeoLocation, Cache, Resolver, cache_get, without, set_last, evict, cache_put,
}

length-without-le : (ip : String) (c : Cache) → length (without ip c) ≤ length c
unfolding without
length-without-le ip [] = omega arith
length-without-le ip ((k, v) ∷ c) = ground (arith, length-without-le ip c)

-- Looking up an entry that is there, and storing it anew, never grows the cache.
pub length-set_last_hit :
    (ip : String) (loc new : GeoLocation) (c : Cache)
    → cache_get ip c ≡ some loc
    → length (set_last ip new c) ≤ length c
unfolding cache_get without
length-set_last_hit ip loc new [] h = cc
length-set_last_hit ip loc new ((k, v) ∷ c) h = elim (Bool-cases (str_eq k ip)) [
  | inl e ↦
      rw e (omega (arith, length-append (without ip c) ((ip, new) ∷ []), length-without-le ip c))
  | inr e ↦ rw e (omega (arith, length-set_last_hit ip loc new c (ground arith)))
]

drop-nil : (n : ℕ) → drop {A = String × GeoLocation} n [] ≡ []
drop-nil zero = refl
drop-nil (suc n) = refl

-- Eviction leaves the newest entries, as many as fit.
pub evict_lem : (size : ℕ) (c : Cache) → evict size c ≡ drop (length c - size) c
unfolding evict
evict_lem size [] = sym (drop-nil (0 - size))
evict_lem size (e ∷ c) = elim (Bool-cases (ltb size (suc (length c)))) [
  | inl h ↦
      let k : suc (length c) - size ≡ suc (length c - size) = ground arith in
      rw (h, k) (evict_lem size c)
  | inr h ↦ let k : suc (length c) - size ≡ 0 = ground arith in rw (h, k)
]

pub length-evict : (size : ℕ) (c : Cache) → length (evict size c) ≤ size
unfolding evict
length-evict size [] = omega arith
length-evict size (e ∷ c) = ground (arith, length-evict size c)

pub length-cache_put :
    (ip : String) (loc : GeoLocation) (r : Resolver)
    → length r.cache ≤ r.cache_size
    → length (cache_put ip loc r).cache ≤ r.cache_size
unfolding cache_put
length-cache_put ip loc r h = ground (arith, length-evict r.cache_size (set_last ip loc r.cache))

cache_put_off :
    (ip : String) (loc : GeoLocation) (r : Resolver)
    → leb r.cache_size 0 ≡ true
    → (cache_put ip loc r).cache ≡ r.cache
unfolding cache_put
cache_put_off ip loc r h = rw h

cache_put_on :
    (ip : String) (loc : GeoLocation) (r : Resolver)
    → leb r.cache_size 0 ≡ false
    → (cache_put ip loc r).cache ≡ evict r.cache_size (set_last ip loc r.cache)
unfolding cache_put
cache_put_on ip loc r h = rw h

entry_path :
    {k ip : String} {v loc : GeoLocation}
    → k ≡ ip
    → v ≡ loc
    → ◌≡◌ {A = String × GeoLocation} (k, v) (ip, loc)
entry_path p q = λ i. (p i, q i)

-- What holds of every entry goes on holding.
module _ (P : String × GeoLocation → Type 0) where
  All-without : (ip : String) (c : Cache) → All P c → All P (without ip c)
  unfolding without
  All-without ip [] a = tt
  All-without ip ((k, v) ∷ c) (p, a) = elim (Bool-cases (str_eq k ip)) [
    | inl e ↦ rw e (All-without ip c a)
    | inr e ↦ rw e (p, All-without ip c a)
  ]

  All-evict : (size : ℕ) (c : Cache) → All P c → All P (evict size c)
  unfolding evict
  All-evict size [] a = tt
  All-evict size (e ∷ c) (p, a) = elim (Bool-cases (ltb size (suc (length c)))) [
    | inl h ↦ rw h (All-evict size c a)
    | inr h ↦ rw h (p, a)
  ]

  pub All-set_last :
      (ip : String) (loc : GeoLocation) (c : Cache)
      → P (ip, loc)
      → All P c
      → All P (set_last ip loc c)
  All-set_last ip loc c p a = All-append P (without ip c) _ (All-without ip c a) (p, tt)

  pub All-cache_put :
      (ip : String) (loc : GeoLocation) (r : Resolver)
      → P (ip, loc)
      → All P r.cache
      → All P (cache_put ip loc r).cache
  All-cache_put ip loc r p a = elim (Bool-cases (leb r.cache_size 0)) [
    | inl h ↦ subst (All P) (sym (cache_put_off ip loc r h)) a
    | inr h ↦
        subst (All P) (sym (cache_put_on ip loc r h))
          (All-evict r.cache_size _ (All-set_last ip loc r.cache p a))
  ]

  pub All-cache_get :
      (ip : String) (c : Cache) (loc : GeoLocation)
      → All P c
      → cache_get ip c ≡ some loc
      → P (ip, loc)
  unfolding cache_get
  All-cache_get ip [] loc a h = cc
  All-cache_get ip ((k, v) ∷ c) loc (p, a) h = elim (Bool-cases (str_eq k ip)) [
    | inl e ↦ subst P (entry_path ((eq_iff k ip).0 e) (ground arith)) p
    | inr e ↦ All-cache_get ip c loc a (ground arith)
  ]
