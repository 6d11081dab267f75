-- ===== src/Api/Routes/Attacks.antt =====
-- src/honeywatch/api/routes/attacks.py: the list of events, page by page.
pub mod Pages
use honeywatch.Prelude.{
  ℕ, ◌+◌, ◌-◌, ◌/◌, String, Bool, true, false, ◌&&◌, ◌||◌, List, Option, none, some, leb, str_eq,
}
use honeywatch.Db.Models.{AttackEventModel}
use honeywatch.Db.Query.{OrderBy, if_given}
use honeywatch.Db.Repository
use honeywatch.Api.Base.{Answer, ok, error, and_then, or_error, require}

pub record EventPage : Type 0 where
  pub events : List AttackEventModel
  pub page : ℕ
  pub per_page : ℕ
  pub total : ℕ
  pub total_pages : ℕ

abbrev pub total_pages : ℕ → ℕ → ℕ
total_pages total per_page = (total + per_page - 1) / per_page

-- `Query(ge=1)`, `Query(ge=1, le=100)` and `Query(pattern="^(ssh|http)$")`
abbrev pub accepted : Option String → ℕ → ℕ → Bool
accepted protocol page per_page =
    leb 1 page
    && (leb 1 per_page
        && (leb per_page 100 && if_given protocol (λ p. str_eq p "ssh" || str_eq p "http")))

abbrev pub page_of : ℕ → ℕ → List AttackEventModel × ℕ → Answer EventPage
page_of page per_page (events, total) = ok (record {
  events = events;
  page = page;
  per_page = per_page;
  total = total;
  total_pages = total_pages total per_page;
})

unfoldable pub list_events :
    OrderBy
    → Option String
    → Option String
    → Option ℕ
    → Option ℕ
    → (page per_page : ℕ) → List AttackEventModel
    → Answer EventPage
list_events order protocol source_ip since until page per_page rows =
    require (accepted protocol page per_page) 422 (
      and_then
        (or_error 500 (
          honeywatch.Db.Repository.list_events order protocol source_ip since until page per_page
            rows))
        (page_of page per_page))
