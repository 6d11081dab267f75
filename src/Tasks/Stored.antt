-- ===== src/Tasks/Stored.antt =====
-- src/honeywatch/tasks/workers.py: the loop of `start` with the context store in it. The worker's own
-- state is what the database holds and the store; `now n` and `outcome n` say when the entry n is
-- classified and how the pipeline of its call ends.
use mathlib.Core.List.{append_assoc, append-nil, Nodup}
use honeywatch.Prelude.{
  ℕ, ◌+◌, ◌≤◌, ◌≡◌, refl, sym, ap, ◌∙◌, true, List, [], ◌∷◌, ◌++◌, Option, none, some, arith,
  length, map, flatten,
}
use honeywatch.Event.{AttackEvent}
use honeywatch.Detection.Rules.{DetectionRules}
use honeywatch.Detection.Classifier.{classify}
use honeywatch.Detection.IpContext.{
  RedisDb, NumberText, Outcome, Call, IpContextStore, context_ttl, after, update_and_get,
}
use honeywatch.Detection.IpContext.Attempts.{IsEmpty}
use honeywatch.Detection.IpContext.Window.{Before}
use honeywatch.Db.Models.{AttackEventModel}
use honeywatch.Collector.Queue.{Reply, carried_out, Queue}
use honeywatch.Collector.Consume.{Fetch, State, consume, goes_on}
use honeywatch.Collector.Served.{Serves, marked, steps, step_at, consume-steps}
use honeywatch.Tasks.Worker.{
  Commit, stored, Store, Worker, classify_event, model_of, process_from, process_event,
  db_max_retries,
}
use honeywatch.Tasks.Worker.Settled.{HasId}
use honeywatch.Tasks.Worker.Outage.{process_event-stored}
use honeywatch.Tasks.Worker.Entries.{events_of, AllNew}
use honeywatch.Tasks.Worker.Delivery.{with_row, Ready, Ready-passes, Ready-serves}
use honeywatch.Tasks.Classify.{call_of, window_of, classify_stored, context_by, classify_stored_lem}

module _ (redis : RedisDb) (text : NumberText) (rules : DetectionRules) (now : ℕ → ℕ)
    (outcome : ℕ → Outcome) where
  open redis use {Db}

  -- the worker's own state
  abbrev pub Kept : Type 0
  Kept = Store × IpContextStore Db

  abbrev pub attach : IpContextStore Db → Worker → State AttackEvent Kept
  attach c (q, s) = (q, (s, c))

  -- `_process_event`
  unfoldable pub process_stored :
      (ℕ → Reply)
      → (ℕ → AttackEventModel → List AttackEventModel → Commit)
      → ℕ
      → AttackEvent
      → State AttackEvent Kept
      → State AttackEvent Kept
  process_stored reply db n e (q, (s, c)) =
      let (c', result) = classify_stored redis text rules e (now n) (outcome n) c in
      attach c' (process_from reply db n (model_of e result) db_max_retries 0 (q, s))

  -- the call of an entry
  abbrev pub call_at : ℕ → AttackEvent → Call
  call_at n e = call_of e (now n) (outcome n)

  -- what an entry adds to the rows, and to the calls before the rest
  abbrev pub row_then :
      ℕ
      → List Call
      → (List Call → List AttackEventModel)
      → Option AttackEvent
      → List AttackEventModel
  row_then n h rest none = rest h
  row_then n h rest (some e) =
      model_of e (classify rules e (context_by (window_of rules) (outcome n) (call_at n e) h))
      ∷ rest (call_at n e ∷ h)

  -- The rows of some entries, by the calls before them: each event is classified in the context that
  -- the earlier calls make, or in the empty one where the server does not carry out its own.
  abbrev pub rows_after : (ℕ → Option AttackEvent) → List ℕ → List Call → List AttackEventModel
  rows_after parse [] h = []
  rows_after parse (n ∷ l) h = row_then n h (rows_after parse l) (parse n)

  abbrev pub BeforeRest : ℕ → List Call → (List Call → Type 0) → Option AttackEvent → Type 0
  BeforeRest n h rest none = rest h
  BeforeRest n h rest (some e) = Before (now n) h × rest (call_at n e ∷ h)

  -- The entries are classified one after the other.
  abbrev pub InOrder : (ℕ → Option AttackEvent) → List ℕ → List Call → Type 0
  InOrder parse [] h = Unit
  InOrder parse (n ∷ l) h = BeforeRest n h (InOrder parse l) (parse n)

  module _ (parse : ℕ → Option AttackEvent) where
    abbrev classified : ℕ → AttackEvent → Kept → Kept
    classified n e (s, c) =
        let (c', result) = classify_stored redis text rules e (now n) (outcome n) c in
        (with_row (model_of e result) s, c')

    module _ (c : IpContextStore Db) (empty : IsEmpty redis c.db) (pos : 1 ≤ window_of rules)
        (fits : window_of rules ≤ context_ttl) where
      -- the store after some calls
      abbrev stored_calls : List Call → IpContextStore Db
      stored_calls h = after redis text (window_of rules) h c

      -- The entries lead to the rows that the calls before them determine.
      abbrev Determined : List ℕ → Type 0
      Determined l =
          (h : List Call) (s : Store)
          → InOrder parse l h
          → (steps parse classified l (s, stored_calls h)).0.rows ≡ s.rows ++ rows_after parse l h

      rows-classified : (l : List ℕ) → Determined l
      unfolding after classify_stored
      rows-classified [] h s b = sym (append-nil s.rows)
      rows-classified (n ∷ l) h s b = go (rows-classified l) (parse n) b
        where
          go :
              Determined l
              → (o : Option AttackEvent) → BeforeRest n h (InOrder parse l) o
              → (steps parse classified l (step_at parse classified n o (s, stored_calls h))).0.rows
                ≡ s.rows ++ row_then n h (rows_after parse l) o
          go again none b = again h s b
          go again (some e) (before, b) =
              let result =
                (classify_stored redis text rules e (now n) (outcome n) (stored_calls h)).1 in
              let same =
                classify_stored_lem redis text rules c empty pos fits e (now n) (outcome n) h
                  before in
              again (call_at n e ∷ h) (with_row (model_of e result) s) b
              ∙ append_assoc s.rows (model_of e result ∷ []) (rows_after parse l (call_at n e ∷ h))
              ∙ ap (λ r. s.rows ++ model_of e r ∷ rows_after parse l (call_at n e ∷ h)) same

      process_stored-row :
          (reply : ℕ → Reply) (works : (n : ℕ) → reply n ≡ carried_out)
          (db : ℕ → AttackEventModel → List AttackEventModel → Commit)
          (accepts : (k : ℕ) (m : AttackEventModel) (rows : List AttackEventModel)
            → ¬ HasId m.id rows
            → db k m rows ≡ stored)
          (n : ℕ) (e : AttackEvent) (q : Queue AttackEvent) (s : Store) (d : IpContextStore Db)
          → q.connected ≡ true
          → ¬ HasId e.id s.rows
          → process_stored reply db n e (q, (s, d)) ≡ (marked n q, classified n e (s, d))
      unfolding process_stored classify_stored process_event
      process_stored-row reply works db accepts n e q s d connected new =
          let (d', answer) = update_and_get redis text (window_of rules) (call_at n e) d in
          let m = model_of e (classify_event rules (some answer) e) in
          ap (attach d') (
            process_event-stored reply db rules (some answer) n e 0 q s (omega arith)
              (λ j k. absurd (omega arith)) (accepts (s.commits + 0) m s.rows new) connected
              (works q.calls))

      -- While the server of the queue and the database work, the worker that is served new entries, in
      -- batches of any size, writes each readable event into the table once, in order, acknowledges
      -- each entry, and classifies each event in the context of the calls before it, as they alone
      -- determine it, or in the empty context where the store's server fails at its call. The
      -- context store starts empty, and the window of the rules is an hour at most.
      pub consume-rows_after :
          (reply : ℕ → Reply)
          → ((n : ℕ) → reply n ≡ carried_out)
          → (db : ℕ → AttackEventModel → List AttackEventModel → Commit)
          → ((k : ℕ) (m : AttackEventModel) (rows : List AttackEventModel)
              → ¬ HasId m.id rows
              → db k m rows ≡ stored)
          → (fetch : ℕ → Fetch) (batches : List (List ℕ)) (q : Queue AttackEvent) (s : Store)
          → Serves fetch q.calls batches
          → q.connected ≡ true
          → AllNew (events_of parse (flatten batches)) s.rows
          → Nodup (map (λ e. e.id) (events_of parse (flatten batches)))
          → InOrder parse (flatten batches) []
          → (w : State AttackEvent Kept) × (consume reply fetch parse
                (process_stored reply db)
                (length batches)
                (q, (s, c))
              ≡ (w, goes_on))
            × (w.0.acked ≡ q.acked ++ flatten batches)
            × (w.1.0.rows ≡ s.rows ++ rows_after parse (flatten batches) [])
      unfolding after
      consume-rows_after reply works db accepts fetch batches q s f connected new distinct b =
          let (r, done, acked) =
            consume-steps parse classified reply works (process_stored reply db)
              (λ l w. Ready parse l w.0) (λ n l w. Ready-passes parse n l w.0)
              (λ n e l q w p k h.
                let (fresh, later) = Ready-serves parse n e l w.0 p h in
                (process_stored-row reply works db accepts n e q w.0 w.1 k fresh, later _ refl))
              fetch batches q (s, c) f connected (new, distinct) in
          (
            (r, steps parse classified (flatten batches) (s, c)),
            done,
            acked,
            rows-classified (flatten batches) [] s b,
          )
