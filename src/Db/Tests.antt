-- ===== src/Db/Tests.antt =====
-- The queries at concrete rows, and the instances of their theorems.
use honeywatch.Db.Repository.Create.{committed, create_bulk}
use honeywatch.Db.Session.{no_engine, init_db, close_db, sessions, close_db_lem}
use honeywatch.Prelude.{
  ℕ, ◌*◌, ◌≡◌, refl, ◌≢◌, String, true, false, List, [], ◌∷◌, Option, none, some, arith, leb,
  str_eq, if◌then◌else◌,
}
use honeywatch.Prelude.Sort.{sort, sort-perm, sort-IsSorted}
use honeywatch.Event.{ssh, http}
use honeywatch.Db.Models.{AttackEventModel}
use honeywatch.Db.Query.{OrderBy}
use honeywatch.Db.Repository.{selected, get_timeline}
use honeywatch.Db.Repository.Timeline.{get_timeline_quarter}

pub leb-else : (m n : ℕ) → leb m n ≡ false → leb n m ≡ true
leb-else m n h = ground arith

pub leb-then : (m n k : ℕ) → leb m n ≡ true → leb n k ≡ true → leb m k ≡ true
leb-then m n k h i = ground arith

-- a database that sorts stably
abbrev pub stable : OrderBy
stable = record {
  desc = λ key l. sort (λ a b. leb (key b) (key a)) l;
  desc_perm = λ key l. sort-perm (λ a b. leb (key b) (key a)) l;
  desc_sorted = λ key l.
      sort-IsSorted (λ a b. leb (key b) (key a)) (λ a b h. leb-else (key b) (key a) h)
        (λ a b c h k. leb-then (key c) (key b) (key a) k h) l;
  asc = λ key l. sort (λ a b. leb (key a) (key b)) l;
  asc_perm = λ key l. sort-perm (λ a b. leb (key a) (key b)) l;
  asc_sorted = λ key l.
      sort-IsSorted (λ a b. leb (key a) (key b)) (λ a b h. leb-else (key a) (key b) h)
        (λ a b c h k. leb-then (key a) (key b) (key c) h k) l;
}

abbrev row : ℕ → String → Option String → AttackEventModel
row n ip type = record {
  id = n;
  timestamp = n * 1000;
  source_ip = ip;
  source_port = 4000;
  destination_port = 22;
  protocol = if leb n 2 then ssh else http;
  event_type = "ssh_connection";
  attack_type = type;
  severity = some "HIGH";
  raw_data = [];
}

abbrev pub table : List AttackEventModel
table =
    row 1 "8.8.8.8" (some "brute_force")
    ∷ row 3 "1.1.1.1" none
    ∷ row 2 "8.8.8.8" (some "http_scan")
    ∷ row 9 "1.1.1.1" none
    ∷ []

-- a database that knows the hour and no quarter of it
abbrev pub date_trunc : String → ℕ → Option ℕ
date_trunc unit t = if str_eq unit "quarter_hour" then none else some 0

not_empty : selected none 5000 table ≢ []
not_empty e = cc

get_timeline_quarter_example : get_timeline stable date_trunc none 5000 15 table ≡ none
get_timeline_quarter_example =
    get_timeline_quarter stable date_trunc none 5000 15 table (omega arith) (omega arith)
      (λ t. refl) not_empty

close_db_lem_example :
    ((close_db (sessions 2 (init_db no_engine))).in_use ≡ [])
    × ((close_db (sessions 1 (close_db (sessions 2 (init_db no_engine))))).in_use ≡ 0 ∷ [])
close_db_lem_example = close_db_lem no_engine refl 2 0

-- two rows with new ids
abbrev new_rows : List AttackEventModel
new_rows = row 20 "9.9.9.9" none ∷ row 21 "9.9.9.9" none ∷ []

kept_out :
    create_bulk committed (row 20 "9.9.9.9" none ∷ row 3 "9.9.9.9" none ∷ []) table ≡ (table, none)
unfolding create_bulk
kept_out = refl
