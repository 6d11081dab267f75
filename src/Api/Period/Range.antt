-- ===== src/Api/Period/Range.antt =====
-- The range that a period stands for.
use honeywatch.Prelude.{ℕ, ◌+◌, ◌-◌, ◌<◌, ◌≡◌, inl, inr, Option, none, some, arith, ltb, Bool-cases}
use honeywatch.Api.Period.{Period, period_length, before, resolve_period_range}

-- What a period makes of an instant: everything up to it, the range of the period's length that ends
-- in it, or nothing if this would begin before the first instant.
pub data Range (now : ℕ) : Option ℕ → Option (Option ℕ × ℕ) → Type 0 where
  unbounded : Range now none (some (none, now))
  bounded :
      (since delta : ℕ) → since + delta ≡ now → Range now (some delta) (some (some since, now))
  too_early : (delta : ℕ) → now < delta → Range now (some delta) none

before-Range :
    (now delta : ℕ)
    → Range now
        (some delta)
        (elim (before now delta) [ none ↦ none | some since ↦ some (some since, now) ])
unfolding before
before-Range now delta = elim (Bool-cases (ltb now delta)) [
  | inl h ↦ rw h (too_early delta (ground arith))
  | inr h ↦ rw h (bounded (now - delta) delta (ground arith))
]

-- A period but `all` gives the range of its length up to now, and fails only if this began before the
-- first instant; `all` gives everything up to now.
pub resolve_period_range_lem :
    (p : Period) (now : ℕ) → Range now (period_length p) (resolve_period_range p now)
unfolding resolve_period_range
resolve_period_range_lem Period.one_hour now = before-Range now 3600000000
resolve_period_range_lem Period.six_hours now = before-Range now 21600000000
resolve_period_range_lem Period.one_day now = before-Range now 86400000000
resolve_period_range_lem Period.one_week now = before-Range now 604800000000
resolve_period_range_lem Period.one_year now = before-Range now 31536000000000
resolve_period_range_lem Period.all now = unbounded
