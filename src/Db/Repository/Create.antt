-- ===== src/Db/Repository/Create.antt =====
-- `create` and `create_bulk` of src/honeywatch/db/repositories/attack.py: new rows in the table. The
-- table refuses a row whose primary key is there already.
use mathlib.Core.List.{append_assoc}
use honeywatch.Prelude.{
  ℕ, ◌≡◌, ◌≢◌, refl, subst, inl, inr, Bool, true, false, not, ◌&&◌, List, [], ◌∷◌, ◌++◌, Option,
  none, some, All, arith, any, ◌==◌, Bool-cases, if◌then◌else◌,
}
use honeywatch.Db.Models.{AttackEventModel}
use honeywatch.Db.Repository.{get_by_id}

-- How the session goes on, apart from the primary key: the commit is carried out; it raises; or it is
-- carried out and the refresh that follows raises.
pub data Session : Type 0 where
  committed refused refresh_fails : Session

abbrev pub has_id : ℕ → List AttackEventModel → Bool
has_id id rows = any (λ r. r.id == id) rows

-- is every row new, in the table and before itself?
abbrev pub all_new : List AttackEventModel → List AttackEventModel → Bool
all_new [] rows = true
all_new (e ∷ events) rows = not (has_id e.id rows) && all_new events (rows ++ e ∷ [])

-- a commit of rows that were added
abbrev pub commit : List AttackEventModel → List AttackEventModel → List AttackEventModel × Bool
commit events rows = if all_new events rows then (rows ++ events, true) else (rows, false)

abbrev pub answer : {A : Type 0} → A → Bool → Option A
answer a true = some a
answer a false = none

-- the rows after the call, and what it returns, where it does not raise
unfoldable pub create :
    Session
    → AttackEventModel
    → List AttackEventModel
    → List AttackEventModel × Option AttackEventModel
create committed event rows =
    let (rows', done) = commit (event ∷ []) rows in (rows', answer event done)
create refused event rows = (rows, none)
create refresh_fails event rows = ((commit (event ∷ []) rows).0, none)

-- there is no refresh
unfoldable pub create_bulk :
    Session
    → List AttackEventModel
    → List AttackEventModel
    → List AttackEventModel × Option (List AttackEventModel)
create_bulk committed events rows =
    let (rows', done) = commit events rows in (rows', answer events done)
create_bulk refused events rows = (rows, none)
create_bulk refresh_fails events rows =
    let (rows', done) = commit events rows in (rows', answer events done)

get_by_id-none :
    (id : ℕ) (rows : List AttackEventModel) → has_id id rows ≡ false → get_by_id id rows ≡ none
unfolding get_by_id
get_by_id-none id [] h = refl
get_by_id-none id (r ∷ rows) h = ground (arith, get_by_id-none id rows)

get_by_id-found :
    (id : ℕ) (rows more : List AttackEventModel) (r : AttackEventModel)
    → get_by_id id rows ≡ some r
    → get_by_id id (rows ++ more) ≡ some r
unfolding get_by_id
get_by_id-found id [] more r h = cc
get_by_id-found id (x ∷ rows) more r h = ground (arith, get_by_id-found id rows more r)

get_by_id-last :
    (e : AttackEventModel) (rows : List AttackEventModel)
    → has_id e.id rows ≡ false
    → get_by_id e.id (rows ++ e ∷ []) ≡ some e
unfolding get_by_id
get_by_id-last e [] h = ground arith
get_by_id-last e (r ∷ rows) h = ground (arith, get_by_id-last e rows)

and_true : (a b : Bool) → (a && b) ≡ true → (a ≡ true) × (b ≡ true)
and_true true b h = (refl, h)
and_true false b h = cc

negated : (a : Bool) → not a ≡ true → a ≡ false
negated true h = cc
negated false h = refl

each_found :
    (events rows : List AttackEventModel)
    → all_new events rows ≡ true
    → All (λ e. get_by_id e.id (rows ++ events) ≡ some e) events
each_found [] rows h = tt
each_found (e ∷ events) rows h =
    let (new, later) = and_true (not (has_id e.id rows)) _ h in
    let same : (rows ++ e ∷ []) ++ events ≡ rows ++ e ∷ events =
      append_assoc rows (e ∷ []) events in
    (
      subst (λ l. get_by_id e.id l ≡ some e) same
          (get_by_id-found e.id (rows ++ e ∷ []) events e
            (get_by_id-last e rows (negated (has_id e.id rows) new))),
      subst (λ l. All (λ d. get_by_id d.id l ≡ some d) events) same
          (each_found events (rows ++ e ∷ []) later),
    )

-- What a call that returns or raises has done.
pub data Created (events rows : List AttackEventModel)
    : List AttackEventModel → Option (List AttackEventModel) → Type 0 where
  nothing : Created events rows rows none
  all :
      All (λ e. get_by_id e.id (rows ++ events) ≡ some e) events
      → ((id : ℕ) → All (λ e. e.id ≢ id) events → get_by_id id (rows ++ events) ≡ get_by_id id rows)
      → Created events rows (rows ++ events) (some events)

-- An event that `create` returns is found under its id.
pub create-get_by_id :
    (s : Session) (event : AttackEventModel) (rows : List AttackEventModel) (r : AttackEventModel)
    → (create s event rows).1 ≡ some r
    → get_by_id event.id (create s event rows).0 ≡ some event
unfolding create
create-get_by_id committed event rows r h = elim (Bool-cases (all_new (event ∷ []) rows)) [
  | inl e ↦ rw e (each_found (event ∷ []) rows e).0
  | inr e ↦ let raised : none ≡ some r = rw e at h in cc
]
create-get_by_id refused event rows r h = cc
create-get_by_id refresh_fails event rows r h = cc
