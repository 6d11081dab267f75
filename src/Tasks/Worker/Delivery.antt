-- ===== src/Tasks/Worker/Delivery.antt =====
-- What the entries of the queue have to be for the worker to store each, while the database works.
use mathlib.Core.List.{Mem, Nodup, Nodup-cons}
use honeywatch.Prelude.{ℕ, ◌+◌, ◌≡◌, subst, List, [], ◌∷◌, ◌++◌, Option, none, some, map}
use honeywatch.Event.{AttackEvent}
use honeywatch.Db.Models.{AttackEventModel}
use honeywatch.Tasks.Worker.{Store}
use honeywatch.Tasks.Worker.Settled.{HasId}
use honeywatch.Tasks.Worker.Entries.{read, events_of, AllNew, AllNew-append}

-- a store with one more row
abbrev pub with_row : AttackEventModel → Store → Store
with_row m s = record s { rows = s.rows ++ m ∷ []; commits = s.commits + 1; slept = s.slept + 0 }

module _ (parse : ℕ → Option AttackEvent) where
  -- The events of the entries are new, and different from each other.
  abbrev pub Ready : List ℕ → Store → Type 0
  Ready l s = AllNew (events_of parse l) s.rows × Nodup (map (λ e. e.id) (events_of parse l))

  pub Ready-passes : (n : ℕ) (l : List ℕ) (s : Store) → parse n ≡ none → Ready (n ∷ l) s → Ready l s
  Ready-passes n l s p r =
      subst
        (λ o.
          AllNew (read o ++ events_of parse l) s.rows
          × Nodup (map (λ e. e.id) (read o ++ events_of parse l)))
        p r

  -- the head of the events, for an entry that can be read
  pub Ready-serves :
      (n : ℕ) (e : AttackEvent) (l : List ℕ) (s : Store)
      → parse n ≡ some e
      → Ready (n ∷ l) s
      → (¬ HasId e.id s.rows) × ((m : AttackEventModel) → m.id ≡ e.id → Ready l (with_row m s))
  Ready-serves n e l s p r =
      let (a, d) : AllNew (e ∷ events_of parse l) s.rows
          × Nodup (e.id ∷ map (λ e. e.id) (events_of parse l)) =
        subst
          (λ o.
            AllNew (read o ++ events_of parse l) s.rows
            × Nodup (map (λ e. e.id) (read o ++ events_of parse l)))
          p r in
      let (fresh, distinct) = Nodup-cons.0 d in
      (
        a.0,
        λ m i. (
          AllNew-append (events_of parse l) s.rows m a.1
              (λ k. fresh (subst (λ x. Mem x (map (λ e. e.id) (events_of parse l))) i k)),
          distinct,
        ),
      )
