-- ===== src/Api/Period.antt =====
-- src/honeywatch/api/period.py: from the name of a period to the range of a query. An instant counts
-- microseconds from `datetime.min`.
pub mod Range
use honeywatch.Prelude.{
  ℕ, ◌+◌, ◌-◌, ◌*◌, ◌≤◌, ◌<◌, ◌≡◌, refl, ◌⊎◌, inl, inr, String, Bool, true, false, Option, none,
  some, arith, ltb, str_eq, if◌then◌else◌, Bool-cases,
}

abbrev hours : ℕ → ℕ
hours n = n * 3600000000

-- The names that `PERIOD_PATTERN` lets through.
pub data Period : Type 0 where
  one_hour six_hours one_day one_week one_year all : Period

-- `PERIOD_PATTERN`
unfoldable pub period_of : String → Option Period
period_of s =
    if str_eq s "1h"
    then some one_hour
    else (if str_eq s "6h"
        then some six_hours
        else (if str_eq s "24h"
            then some one_day
            else (if str_eq s "7d"
                then some one_week
                else (if str_eq s "1y"
                    then some one_year
                    else (if str_eq s "all" then some all else none)))))

-- `_PERIOD_MAP`
abbrev pub period_length : Period → Option ℕ
period_length one_hour = some (hours 1)
period_length six_hours = some (hours 6)
period_length one_day = some (hours 24)
period_length one_week = some (hours (7 * 24))
period_length one_year = some (hours (365 * 24))
period_length all = none

-- `now - delta`, which raises before `datetime.min`
unfoldable pub before : ℕ → ℕ → Option ℕ
before now delta = if ltb now delta then none else some (now - delta)

-- the range at an instant; none where the subtraction raises
unfoldable pub resolve_period_range : Period → ℕ → Option (Option ℕ × ℕ)
resolve_period_range period now = elim (period_length period) [
  | none ↦ some (none, now)
  | some delta ↦ elim (before now delta) [ none ↦ none | some since ↦ some (some since, now) ]
]
