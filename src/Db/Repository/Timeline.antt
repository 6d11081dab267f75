-- ===== src/Db/Repository/Timeline.antt =====
-- The timeline: what its points count, and the unit that the database does not know.
use honeywatch.Prelude.{
  ℕ, ◌≤◌, ◌<◌, ◌≡◌, refl, ap, ◌∙◌, ◌≢◌, String, List, [], ◌∷◌, Option, none, arith,
}
use honeywatch.Db.Models.{AttackEventModel}
use honeywatch.Db.Query.{OrderBy}
use honeywatch.Db.Repository.{selected, trunc_unit, bucketed, points_of, get_timeline}

quarter_hour : (n : ℕ) → 5 < n → n ≤ 15 → trunc_unit n ≡ "quarter_hour"
unfolding trunc_unit
quarter_hour n a b = ground arith

module _ (order : OrderBy) (date_trunc : String → ℕ → Option ℕ) (since : Option ℕ)
    (until interval : ℕ) (rows : List AttackEventModel) where
  -- If the database does not know the unit `quarter_hour`, every query with an interval of more than
  -- five and at most fifteen minutes fails that selects an event.
  pub get_timeline_quarter :
      5 < interval
      → interval ≤ 15
      → ((t : ℕ) → date_trunc "quarter_hour" t ≡ none)
      → selected since until rows ≢ []
      → get_timeline order date_trunc since until interval rows ≡ none
  unfolding get_timeline
  get_timeline_quarter a b h s =
      let unit : trunc_unit interval ≡ "quarter_hour" = quarter_hour interval a b in
      let fails : bucketed (date_trunc "quarter_hour") (selected since until rows) ≡ none =
        first (selected since until rows) s in
      ap (points_of order date_trunc)
        (ap (λ u. bucketed (date_trunc u) (selected since until rows)) unit ∙ fails)
    where
      first : (l : List AttackEventModel) → l ≢ [] → bucketed (date_trunc "quarter_hour") l ≡ none
      first [] n = absurd (n refl)
      first (r ∷ l) n = rw (h r.timestamp, bucketed)
