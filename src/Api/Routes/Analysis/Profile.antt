-- ===== src/Api/Routes/Analysis/Profile.antt =====
-- The profile of an address.
use honeywatch.Prelude.{
  ℕ, ◌≤◌, ◌≡◌, refl, ◌⊎◌, inl, inr, String, true, false, List, [], ◌∷◌, arith, length, map,
  Bool-cases, ◌==◌, str_eq,
}
use honeywatch.Prelude.Groups.{distinct}
use honeywatch.Analysis.Risk.{IpProfile, to_risk_level, build_profile}
use honeywatch.Analysis.Risk.Score.{build_profile_lem}
use honeywatch.Db.Models.{AttackEventModel}
use honeywatch.Db.Query.{of_ip, minimum, maximum, values}
use honeywatch.Db.Repository.{get_ip_aggregate}
use honeywatch.Api.Base.{ok, error}
use honeywatch.Api.Routes.Analysis.{iso, get_ip_profile}

empty_of_length : {A : Type 0} (l : List A) → (length l == 0) ≡ true → l ≡ []
empty_of_length [] h = refl
empty_of_length (a ∷ l) h = absurd (ground arith)

module _ (isoformat : ℕ → String) (source_ip : String) (rows : List AttackEventModel) where
  -- the profile of the rows of the address
  abbrev present_profile : IpProfile
  present_profile =
      let own = of_ip source_ip rows in
      build_profile source_ip (iso isoformat (minimum (map (λ r. r.timestamp) own)))
        (iso isoformat (maximum (map (λ r. r.timestamp) own))) (length own)
        (distinct str_eq (values (λ r. r.attack_type) own)) (values (λ r. r.severity) own)

  absent :
      (length (of_ip source_ip rows) == 0) ≡ true
      → get_ip_profile isoformat source_ip rows ≡ error 404
  unfolding get_ip_profile get_ip_aggregate
  absent h = ground arith

  present :
      (length (of_ip source_ip rows) == 0) ≡ false
      → get_ip_profile isoformat source_ip rows ≡ ok present_profile
  unfolding get_ip_profile get_ip_aggregate
  present h = ground arith

  -- The answer for an address is 404 if the table has no event of it; otherwise it is a profile that
  -- counts all its events, at least one, with a score of at most 100 and the level of this score.
  pub get_ip_profile_lem :
      ((get_ip_profile isoformat source_ip rows ≡ error 404) × (of_ip source_ip rows ≡ []))
      ⊎ ((p : IpProfile) × (get_ip_profile isoformat source_ip rows ≡ ok p)
          × (p.source_ip ≡ source_ip)
          × (p.total_events ≡ length (of_ip source_ip rows))
          × (1 ≤ p.total_events)
          × (p.risk_score ≤ 100)
          × (p.risk_level ≡ to_risk_level p.risk_score))
  unfolding build_profile
  get_ip_profile_lem = elim (Bool-cases (length (of_ip source_ip rows) == 0)) [
    | inl h ↦ inl (absent h, empty_of_length (of_ip source_ip rows) h)
    | inr h ↦
        let own = of_ip source_ip rows in
        let b =
          build_profile_lem source_ip (iso isoformat (minimum (map (λ r. r.timestamp) own)))
            (iso isoformat (maximum (map (λ r. r.timestamp) own))) (length own)
            (distinct str_eq (values (λ r. r.attack_type) own)) (values (λ r. r.severity) own) in
        inr (present_profile, present h, refl, refl, ground arith, b.2, b.3)
  ]
