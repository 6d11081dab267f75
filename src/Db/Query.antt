-- ===== src/Db/Query.antt =====
-- What the queries of src/honeywatch/db/repositories/attack.py say in SQL: WHERE and GROUP BY on the
-- list of rows, and the aggregates. ORDER BY is a parameter of the repository, since the order of
-- equal keys is the database's.
use mathlib.Core.List.{Perm}
use honeywatch.Prelude.{
  ℕ, min, max, String, Bool, true, ◌&&◌, List, [], ◌∷◌, Option, none, some, leb, take, drop, str_eq,
}
use honeywatch.Prelude.Sort.{IsSorted}
use honeywatch.Prelude.Groups.{group}
use honeywatch.Event.{protocol_name}
use honeywatch.Db.Models.{AttackEventModel}

-- ORDER BY in both directions: it gives the rows that it was given, by falling or by rising keys.
pub record OrderBy : Type 1 where
  pub desc : {A : Type 0} → (A → ℕ) → List A → List A
  pub desc_perm : {A : Type 0} (key : A → ℕ) (l : List A) → Perm (desc key l) l
  pub desc_sorted :
      {A : Type 0} (key : A → ℕ) (l : List A) → IsSorted (λ a b. leb (key b) (key a)) (desc key l)
  pub asc : {A : Type 0} → (A → ℕ) → List A → List A
  pub asc_perm : {A : Type 0} (key : A → ℕ) (l : List A) → Perm (asc key l) l
  pub asc_sorted :
      {A : Type 0} (key : A → ℕ) (l : List A) → IsSorted (λ a b. leb (key a) (key b)) (asc key l)

-- a condition that is added where its value is given
abbrev pub if_given : {A : Type 0} → Option A → (A → Bool) → Bool
if_given none p = true
if_given (some a) p = p a

-- `protocol == p`
abbrev pub has_protocol : String → AttackEventModel → Bool
has_protocol p r = str_eq (protocol_name r.protocol) p

-- the rows of an address
abbrev pub of_ip : String → List AttackEventModel → List AttackEventModel
of_ip ip rows = group str_eq (λ r. r.source_ip) ip rows

-- `timestamp <= until`, and `timestamp >= since` where it is given
abbrev pub in_range : Option ℕ → ℕ → AttackEventModel → Bool
in_range since until r = leb r.timestamp until && if_given since (λ s. leb s r.timestamp)

-- the values of a column that are not NULL
abbrev pub values : {A B : Type 0} → (A → Option B) → List A → List B
values f [] = []
values f (a ∷ l) = elim (f a) [ none ↦ values f l | some b ↦ b ∷ values f l ]

-- `func.min`, which is NULL of no rows
abbrev pub minimum : List ℕ → Option ℕ
minimum [] = none
minimum (n ∷ l) = elim (minimum l) [ none ↦ some n | some m ↦ some (min n m) ]

-- `func.max`
abbrev pub maximum : List ℕ → Option ℕ
maximum [] = none
maximum (n ∷ l) = elim (maximum l) [ none ↦ some n | some m ↦ some (max n m) ]

-- `.offset(n).limit(m)`
abbrev pub slice : {A : Type 0} → ℕ → ℕ → List A → List A
slice n m l = take m (drop n l)
