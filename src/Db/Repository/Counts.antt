-- ===== src/Db/Repository/Counts.antt =====
-- The counts of the repository add up.
use mathlib.Core.List.{Perm}
use honeywatch.Prelude.{
  ℕ, ◌+◌, ◌≤◌, ◌≡◌, refl, subst, ap, ◌∙◌, inl, inr, String, true, false, List, [], ◌∷◌, map, Option,
  none, arith, length, filter, take, leb, str_eq, eq_iff,
}
use honeywatch.Prelude.Sort.{IsSorted, sum_by, sum_by-perm}
use honeywatch.Prelude.Groups.{distinct, sum_by-groups}
use honeywatch.Event.{Protocol, ssh, http, Protocol-cases, protocol_name}
use honeywatch.Db.Models.{AttackEventModel}
use honeywatch.Db.Query.{OrderBy, has_protocol, values}
use honeywatch.Db.Repository.{
  IpRow, ip_row, ip_rows, listed, selected, get_summary, get_top_ips, get_ip_counts,
  count_by_attack_type,
}

has_ssh :
    (p : Protocol)
    → p ≡ ssh
    → (str_eq (protocol_name p) "ssh" ≡ true) × (str_eq (protocol_name p) "http" ≡ false)
has_ssh ssh h = (refl, refl)
has_ssh http h = cc

has_http :
    (p : Protocol)
    → p ≡ http
    → (str_eq (protocol_name p) "ssh" ≡ false) × (str_eq (protocol_name p) "http" ≡ true)
has_http ssh h = cc
has_http http h = (refl, refl)

-- Each event is of one protocol.
pub by_protocol :
    {A : Type 0} (row : A → AttackEventModel) (l : List A)
    → length (filter (λ a. has_protocol "ssh" (row a)) l)
        + length (filter (λ a. has_protocol "http" (row a)) l)
      ≡ length l
by_protocol row [] = refl
by_protocol row (a ∷ l) = elim (Protocol-cases (row a).protocol) [
  | inl h ↦ let (s, t) = has_ssh (row a).protocol h in rw (s, t) (omega (arith, by_protocol row l))
  | inr h ↦ let (s, t) = has_http (row a).protocol h in rw (s, t) (omega (arith, by_protocol row l))
]

length-distinct-le : (l : List String) → length (distinct str_eq l) ≤ length l
length-distinct-le [] = omega arith
length-distinct-le (x ∷ l) = ground (arith, length-distinct-le l)

length-map {ℓ} : {A B : Type ℓ} (f : A → B) (l : List A) → length (map f l) ≡ length l
length-map f [] = refl
length-map f (x ∷ l) = omega (arith, length-map f l)

-- The SSH and the HTTP events make up the total, and there are no more addresses than events.
pub get_summary_lem :
    (since : Option ℕ) (until : ℕ) (rows : List AttackEventModel)
    → let s = get_summary since until rows in
      (s.ssh_attempts + s.http_attacks ≡ s.total)
      × (s.unique_ips ≤ s.total)
      × (s.total ≡ length (selected since until rows))
unfolding get_summary
get_summary_lem since until rows =
    let base = selected since until rows in
    (
      by_protocol (λ r. r) base,
      omega (
        arith,
        length-distinct-le (map (λ r. r.source_ip) base),
        length-map (λ r. r.source_ip) base,
      ),
      refl,
    )

-- A sum over the images of a list.
pub sum_by-map {ℓ} :
    {A B : Type ℓ} (f : B → ℕ) (g : A → B) (l : List A)
    → sum_by f (map g l) ≡ sum_by (λ a. f (g a)) l
sum_by-map f g [] = refl
sum_by-map f g (a ∷ l) = omega (arith, sum_by-map f g l)

ip_rows-sum :
    (base : List AttackEventModel) → sum_by (λ c. c.event_count) (ip_rows base) ≡ length base
ip_rows-sum base =
    sum_by-map (λ c. c.event_count) (ip_row base) (distinct str_eq (map (λ r. r.source_ip) base))
    ∙ sum_by-groups str_eq (λ r. r.source_ip) eq_iff base

map_self : {A : Type 0} (l : List A) → map (λ a. a) l ≡ l
map_self [] = refl
map_self (a ∷ l) = ap (λ r. a ∷ r) (map_self l)

module _ (order : OrderBy) where
  -- The ranking is the head of a list of all addresses, each with the number of its events, that
  -- falls by this number; together they have all the events of the period.
  pub get_top_ips_lem :
      (since : Option ℕ) (until limit : ℕ) (rows : List AttackEventModel)
      → (all : List IpRow) × (get_top_ips order since until limit rows ≡ take limit all)
        × Perm all (ip_rows (selected since until rows))
        × IsSorted (λ a b. leb b.event_count a.event_count) all
        × (sum_by (λ c. c.event_count) all ≡ length (selected since until rows))
  unfolding get_top_ips
  get_top_ips_lem since until limit rows =
      let base = selected since until rows in
      let perm : Perm (order.desc (λ c. c.event_count) (ip_rows base)) (ip_rows base) =
        order.desc_perm (λ c. c.event_count) (ip_rows base) in
      (
        order.desc (λ c. c.event_count) (ip_rows base),
        refl,
        perm,
        order.desc_sorted (λ c. c.event_count) (ip_rows base),
        sum_by-perm (λ _ _. true) (λ c. c.event_count) perm ∙ ip_rows-sum base,
      )

  -- The counts by address add up to the events of the period.
  pub get_ip_counts-sum :
      (since until : Option ℕ) (rows : List AttackEventModel)
      → sum_by (λ c. c.1) (get_ip_counts order since until rows)
        ≡ length (filter (listed none none since until) rows)
  unfolding get_ip_counts
  get_ip_counts-sum since until rows =
      let base : List AttackEventModel = filter (listed none none since until) rows in
      sum_by-map (λ c. c.1) (λ c. (c.source_ip, c.event_count))
        (order.desc (λ c. c.event_count) (ip_rows base))
      ∙ sum_by-perm (λ _ _. true) (λ c. c.event_count)
          (order.desc_perm (λ c. c.event_count) (ip_rows base))
      ∙ ip_rows-sum base

  -- The counts by attack type add up to the classified events of the period.
  pub count_by_attack_type-sum :
      (since : Option ℕ) (until : ℕ) (rows : List AttackEventModel)
      → sum_by (λ c. c.1) (count_by_attack_type order since until rows)
        ≡ length (values (λ r. r.attack_type) (selected since until rows))
  unfolding count_by_attack_type
  count_by_attack_type-sum since until rows =
      let found : List String = values (λ r. r.attack_type) (selected since until rows) in
      let counts : List (String × ℕ) =
        map (λ s. (s, length (filter (λ t. str_eq t s) found))) (distinct str_eq found) in
      sum_by-perm (λ _ _. true) (λ c. c.1) (order.desc_perm (λ c. c.1) counts)
      ∙ sum_by-map (λ c. c.1) (λ s. (s, length (filter (λ t. str_eq t s) found)))
          (distinct str_eq found)
      ∙ subst
          (λ l.
            sum_by (λ s. length (filter (λ t. str_eq t s) found)) (distinct str_eq l)
            ≡ length found)
          (map_self found) (sum_by-groups str_eq (λ t. t) eq_iff found)
