-- ===== src/Api/Routes/Health.antt =====
-- src/honeywatch/api/routes/health.py: the health check, by whether each part answers.
use honeywatch.Prelude.{String, Bool, ◌&&◌, if◌then◌else◌, str_eq}

pub record Health : Type 0 where
  pub status : String
  pub database : String
  pub redis : String

abbrev pub component : Bool → String
component answers = if answers then "up" else "down"

unfoldable pub health_check : Bool → Bool → Health
health_check database_answers redis_answers =
    let database = component database_answers in
    let redis = component redis_answers in
    let all_up = str_eq database "up" && str_eq redis "up" in
    record { status = if all_up then "healthy" else "degraded"; database = database; redis = redis }
