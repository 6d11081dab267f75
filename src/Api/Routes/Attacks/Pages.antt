-- ===== src/Api/Routes/Attacks/Pages.antt =====
-- The pages of the list of events, up to the number of pages that each of them states.
use native.Mathlib.Nat.{lt-div-mul-add}
use honeywatch.Prelude.{
  ℕ, zero, suc, ◌+◌, ◌-◌, ◌*◌, ◌/◌, ◌≤◌, ◌<◌, String, List, [], ◌++◌, Option, arith,
}
use honeywatch.Db.Models.{AttackEventModel}
use honeywatch.Db.Query.{OrderBy}
use honeywatch.Api.Base.{Answer, ok, error}
use honeywatch.Api.Routes.Attacks.{EventPage, total_pages, list_events}

abbrev pub page_events : Answer EventPage → List AttackEventModel
page_events (ok p) = p.events
page_events (error _) = []

pub total_pages_enough : (n d : ℕ) → 1 ≤ d → n ≤ total_pages n d * d
total_pages_enough n d h =
    let k : n + d - 1 < (n + d - 1) / d * d + d = lt-div-mul-add (omega arith) in omega (arith, k)

module _ (order : OrderBy) (protocol source_ip : Option String) (since until : Option ℕ)
    (per_page : ℕ) (rows : List AttackEventModel) where
  -- the answers for the pages 1 to n, one after the other
  abbrev pub answers : ℕ → List AttackEventModel
  answers zero = []
  answers (suc n) =
      answers n
      ++ page_events (list_events order protocol source_ip since until (suc n) per_page rows)
