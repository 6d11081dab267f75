-- ===== src/Db/Repository.antt =====
-- src/honeywatch/db/repositories/attack.py: the queries on the events. A query maps the rows of the
-- table to its result.
pub mod Pages
pub mod Counts
pub mod Timeline
pub mod Create
use honeywatch.Prelude.{
  ℕ, zero, suc, ◌+◌, ◌*◌, String, Bool, true, false, ◌&&◌, List, [], ◌∷◌, map, Option, none, some,
  leb, length, filter, take, str_eq, is_empty, ◌==◌, if◌then◌else◌,
}
use honeywatch.Prelude.Groups.{distinct, group}
use honeywatch.Event.{Protocol}
use honeywatch.Db.Models.{AttackEventModel}
use honeywatch.Db.Query.{
  OrderBy, if_given, has_protocol, of_ip, in_range, values, minimum, maximum, slice,
}

abbrev pub month_sentinel : ℕ
month_sentinel = 43200

pub record IpAggregate : Type 0 where
  pub source_ip : String
  pub first_seen : Option ℕ
  pub last_seen : Option ℕ
  pub total_events : ℕ
  pub attack_types : List String
  pub severities : List String

pub record Summary : Type 0 where
  pub total : ℕ
  pub unique_ips : ℕ
  pub ssh_attempts : ℕ
  pub http_attacks : ℕ

pub record IpRow : Type 0 where
  pub source_ip : String
  pub event_count : ℕ
  pub first_seen : Option ℕ
  pub last_seen : Option ℕ

pub record Point : Type 0 where
  pub timestamp : ℕ
  pub total : ℕ
  pub ssh : ℕ
  pub http : ℕ

unfoldable pub get_by_id : ℕ → List AttackEventModel → Option AttackEventModel
get_by_id id [] = none
get_by_id id (r ∷ rows) = if r.id == id then some r else get_by_id id rows

-- the conditions of `list_events`
abbrev pub listed : Option String → Option String → Option ℕ → Option ℕ → AttackEventModel → Bool
listed protocol source_ip since until r =
    if_given protocol (λ p. has_protocol p r)
    && (if_given source_ip (λ ip. str_eq r.source_ip ip)
        && (if_given since (λ s. leb s r.timestamp) && if_given until (λ u. leb r.timestamp u)))

-- `(page - 1) * per_page`; the database refuses a negative offset
abbrev pub offset : ℕ → ℕ → Option ℕ
offset zero per_page = if per_page == 0 then some 0 else none
offset (suc page) per_page = some (page * per_page)

-- the rows that a period selects
abbrev pub selected : Option ℕ → ℕ → List AttackEventModel → List AttackEventModel
selected since until rows = filter (in_range since until) rows

unfoldable pub get_summary : Option ℕ → ℕ → List AttackEventModel → Summary
get_summary since until rows =
    let base = selected since until rows in
    record {
      total = length base;
      unique_ips = length (distinct str_eq (map (λ r. r.source_ip) base));
      ssh_attempts = length (filter (has_protocol "ssh") base);
      http_attacks = length (filter (has_protocol "http") base);
    }

-- the row of a group of `get_top_ips`
abbrev pub ip_row : List AttackEventModel → String → IpRow
ip_row base ip =
    let times = map (λ r. r.timestamp) (of_ip ip base) in
    record {
      source_ip = ip;
      event_count = length (of_ip ip base);
      first_seen = minimum times;
      last_seen = maximum times;
    }

-- GROUP BY source_ip
abbrev pub ip_rows : List AttackEventModel → List IpRow
ip_rows base = map (ip_row base) (distinct str_eq (map (λ r. r.source_ip) base))

-- the unit that `get_timeline` truncates to
unfoldable pub trunc_unit : ℕ → String
trunc_unit interval_minutes =
    if leb month_sentinel interval_minutes
    then "month"
    else (if leb interval_minutes 5
        then "minute"
        else (if leb interval_minutes 15 then "quarter_hour" else "hour"))

unfoldable pub count_by_severity : Option ℕ → ℕ → List AttackEventModel → List (String × ℕ)
count_by_severity since until rows =
    let found = values (λ r. r.severity) (selected since until rows) in
    map (λ s. (s, length (filter (λ t. str_eq t s) found))) (distinct str_eq found)

unfoldable pub get_ip_aggregate : String → List AttackEventModel → Option IpAggregate
get_ip_aggregate source_ip rows =
    let own = of_ip source_ip rows in
    let times = map (λ r. r.timestamp) own in
    if length own == 0
    then none
    else some (record {
      source_ip = source_ip;
      first_seen = minimum times;
      last_seen = maximum times;
      total_events = length own;
      attack_types = distinct str_eq (values (λ r. r.attack_type) own);
      severities = values (λ r. r.severity) own;
    })

-- a candidate of the ranking: its types and severities are those of all its rows
abbrev pub candidate : List AttackEventModel → IpRow → IpAggregate
candidate rows c = record {
  source_ip = c.source_ip;
  first_seen = c.first_seen;
  last_seen = c.last_seen;
  total_events = c.event_count;
  attack_types = values (λ r. r.attack_type) (of_ip c.source_ip rows);
  severities = values (λ r. r.severity) (of_ip c.source_ip rows);
}

module _ (order : OrderBy) where
  -- a page and the number of all events; none where the database refuses the query
  unfoldable pub list_events :
      Option String
      → Option String
      → Option ℕ
      → Option ℕ
      → (page per_page : ℕ) → List AttackEventModel
      → Option (List AttackEventModel × ℕ)
  list_events protocol source_ip since until page per_page rows =
      let found = filter (listed protocol source_ip since until) rows in
      elim (offset page per_page) [
        | none ↦ none
        | some n ↦ some (slice n per_page (order.desc (λ r. r.timestamp) found), length found)
      ]

  unfoldable pub get_top_ips : Option ℕ → ℕ → ℕ → List AttackEventModel → List IpRow
  get_top_ips since until limit rows =
      take limit (order.desc (λ c. c.event_count) (ip_rows (selected since until rows)))

  unfoldable pub get_ip_counts : Option ℕ → Option ℕ → List AttackEventModel → List (String × ℕ)
  get_ip_counts since until rows =
      let base = filter (listed none none since until) rows in
      map (λ c. (c.source_ip, c.event_count)) (order.desc (λ c. c.event_count) (ip_rows base))

  unfoldable pub count_by_attack_type : Option ℕ → ℕ → List AttackEventModel → List (String × ℕ)
  count_by_attack_type since until rows =
      let found = values (λ r. r.attack_type) (selected since until rows) in
      order.desc (λ c. c.1)
        (map (λ s. (s, length (filter (λ t. str_eq t s) found))) (distinct str_eq found))

  unfoldable pub get_ip_aggregates_for_ranking :
      Option ℕ → ℕ → ℕ → List AttackEventModel → List IpAggregate
  get_ip_aggregates_for_ranking since until limit rows =
      map (candidate rows) (get_top_ips since until limit rows)

-- every row with its bucket; none where the database does not know the unit
abbrev pub bucketed : (ℕ → Option ℕ) → List AttackEventModel → Option (List (ℕ × AttackEventModel))
bucketed trunc [] = some []
bucketed trunc (r ∷ rows) = elim (trunc r.timestamp) [
  | none ↦ none
  | some b ↦ elim (bucketed trunc rows) [ none ↦ none | some l ↦ some ((b, r) ∷ l) ]
]

abbrev pub same_bucket : ℕ → ℕ → Bool
same_bucket a b = a == b

abbrev pub point : List (ℕ × AttackEventModel) → ℕ → Point
point l b =
    let own = group same_bucket (λ e. e.0) b l in
    record {
      timestamp = b;
      total = length own;
      ssh = length (filter (λ e. has_protocol "ssh" e.1) own);
      http = length (filter (λ e. has_protocol "http" e.1) own);
    }

-- `date_trunc` is the database's; it fails on a unit that it does not know
module _ (order : OrderBy) (date_trunc : String → ℕ → Option ℕ) where
  -- the points of the bucketed rows
  abbrev pub points_of : Option (List (ℕ × AttackEventModel)) → Option (List Point)
  points_of none = none
  points_of (some l) =
      some (order.asc (λ p. p.timestamp) (map (point l) (distinct same_bucket (map (λ e. e.0) l))))

  unfoldable pub get_timeline : Option ℕ → ℕ → ℕ → List AttackEventModel → Option (List Point)
  get_timeline since until interval_minutes rows =
      points_of (bucketed (date_trunc (trunc_unit interval_minutes)) (selected since until rows))
