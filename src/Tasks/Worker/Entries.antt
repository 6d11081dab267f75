-- ===== src/Tasks/Worker/Entries.antt =====
-- The events that can be read in some entries, as the worker reads them.
use mathlib.Core.List.{Mem, mem-cons_self, mem-cons_of_mem}
use honeywatch.Prelude.{
  ℕ, ◌≡◌, sym, subst, inl, inr, List, [], ◌∷◌, ◌++◌, Option, none, some, All, map,
}
use honeywatch.Event.{AttackEvent}
use honeywatch.Db.Models.{AttackEventModel}
use honeywatch.Tasks.Worker.Settled.{HasId}

-- the events that can be read in some entries
abbrev pub read : Option AttackEvent → List AttackEvent
read none = []
read (some e) = e ∷ []

abbrev pub events_of : (ℕ → Option AttackEvent) → List ℕ → List AttackEvent
events_of parse [] = []
events_of parse (n ∷ l) = read (parse n) ++ events_of parse l

-- None of the events has a row yet.
abbrev pub AllNew : List AttackEvent → List AttackEventModel → Type 0
AllNew es rows = All (λ e. ¬ HasId e.id rows) es

HasId-append :
    (i : ℕ) (rows : List AttackEventModel) (m : AttackEventModel)
    → HasId i (rows ++ m ∷ [])
    → ¬ HasId i rows
    → m.id ≡ i
HasId-append i [] m (inl e) h = e
HasId-append i [] m (inr x) h = absurd x
HasId-append i (r ∷ rows) m (inl e) h = absurd (h (inl e))
HasId-append i (r ∷ rows) m (inr x) h = HasId-append i rows m x (λ k. h (inr k))

pub AllNew-append :
    (es : List AttackEvent) (rows : List AttackEventModel) (m : AttackEventModel)
    → AllNew es rows
    → ¬ Mem m.id (map (λ e. e.id) es)
    → AllNew es (rows ++ m ∷ [])
AllNew-append [] rows m a n = tt
AllNew-append (e ∷ es) rows m (h, a) n = (
  λ k. n (
      subst (λ x. Mem x (e.id ∷ map (λ e. e.id) es)) (sym (HasId-append e.id rows m k h))
        mem-cons_self),
  AllNew-append es rows m a (λ k. n (mem-cons_of_mem e.id k)),
)
