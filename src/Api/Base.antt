-- ===== src/Api/Base.antt =====
-- How a route of src/honeywatch/api ends: with its result, or with an HTTP error. An exception that
-- no one catches is the error 500.
use honeywatch.Prelude.{ℕ, Bool, true, false, Option, none, some}

pub data Answer (A : Type 0) : Type 0 where
  ok : A → Answer A
  error : ℕ → Answer A

abbrev pub and_then : {A B : Type 0} → Answer A → (A → Answer B) → Answer B
and_then (ok a) k = k a
and_then (error n) k = error n

-- the error, where there is no value
abbrev pub or_error : {A : Type 0} → ℕ → Option A → Answer A
or_error n none = error n
or_error n (some a) = ok a

-- a guard that refuses with an error
abbrev pub require : {A : Type 0} → Bool → ℕ → Answer A → Answer A
require true n k = k
require false n k = error n
