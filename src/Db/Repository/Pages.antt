-- ===== src/Db/Repository/Pages.antt =====
-- Paging through the events.
use mathlib.Core.List.{Perm}
use honeywatch.Prelude.{
  ℕ, zero, suc, ◌+◌, ◌*◌, ◌≤◌, ◌≡◌, refl, sym, subst, ◌∙◌, String, List, [], ◌++◌, Option, none,
  some, arith, length, filter, take, take-more, take_all, leb,
}
use honeywatch.Prelude.Sort.{IsSorted, length-perm}
use honeywatch.Db.Models.{AttackEventModel}
use honeywatch.Db.Query.{OrderBy}
use honeywatch.Db.Repository.{listed, list_events}

-- the events of an answer
abbrev pub events_of : Option (List AttackEventModel × ℕ) → List AttackEventModel
events_of none = []
events_of (some (l, _)) = l

module _ (order : OrderBy) (protocol source_ip : Option String) (since until : Option ℕ)
    (per_page : ℕ) (rows : List AttackEventModel) where
  abbrev found : List AttackEventModel
  found = filter (listed protocol source_ip since until) rows

  abbrev newest : List AttackEventModel
  newest = order.desc (λ r. r.timestamp) found

  -- the pages 1 to n, one after the other
  abbrev pub pages : ℕ → List AttackEventModel
  pages zero = []
  pages (suc n) =
      pages n ++ events_of (list_events order protocol source_ip since until (suc n) per_page rows)

  pages-take : (n : ℕ) → pages n ≡ take (n * per_page) newest
  unfolding list_events
  pages-take zero = let k : 0 * per_page ≡ 0 = omega arith in rw k
  pages-take (suc n) =
      let k : suc n * per_page ≡ n * per_page + per_page = omega arith in
      rw (k, pages-take n) (take-more (n * per_page) per_page newest)

  -- Enough pages to hold the events that the filters select hold each of them once, the newest first;
  -- every page states how many there are.
  pub pages_lem :
      (n : ℕ)
      → length (filter (listed protocol source_ip since until) rows) ≤ n * per_page
      → Perm (pages n) (filter (listed protocol source_ip since until) rows)
        × IsSorted (λ a b. leb b.timestamp a.timestamp) (pages n)
        × ((page : ℕ)
            → (l : List AttackEventModel) × (list_events order protocol source_ip since until
                  (suc page)
                  per_page
                  rows
                ≡ some (l, length (filter (listed protocol source_ip since until) rows))))
  unfolding list_events
  pages_lem n h =
      let sorted : IsSorted (λ a b. leb b.timestamp a.timestamp) newest =
        order.desc_sorted (λ r. r.timestamp) found in
      let perm : Perm newest found = order.desc_perm (λ r. r.timestamp) found in
      let e : newest ≡ pages n =
        sym (pages-take n ∙ take_all (n * per_page) newest (omega (arith, length-perm perm))) in
      (
        subst (λ l. Perm l found) e perm,
        subst (IsSorted (λ a b. leb b.timestamp a.timestamp)) e sorted,
        λ page. (_, refl),
      )
