-- ===== src/Tasks/Tests.antt =====
-- The worker at a concrete server and database, and the instances of its theorems.
use mathlib.Core.List.{Nodup, Nodup-cons, Nodup-nil}
use honeywatch.Prelude.{
  ◌*◌, not_mem, flatten, map, ◌++◌, ℕ, ◌+◌, ◌<◌, ◌≡◌, refl, Bool, true, List, [], ◌∷◌, Option, none,
  some, arith, any, any_iff, Exists-map, ◌==◌, if◌then◌else◌, inl, ltb,
}
use honeywatch.Collector.Consume.{State, goes_on, Fetch, entries, no_group, consume}
use honeywatch.Tasks.Worker.Entries.{events_of}
use honeywatch.Detection.IpContext.{Outcome, Call, executed}
use honeywatch.Tasks.Stored.{Kept, process_stored, rows_after, consume-rows_after}
use honeywatch.Detection.Rules.{DetectionRules, default_rules}
use honeywatch.Event.{AttackEvent, ssh}
use honeywatch.Detection.Classifier.{IpContext}
use honeywatch.Detection.IpContext.Server.{server, texts}
use honeywatch.Detection.IpContext.Tests.{fresh}
use honeywatch.Db.Models.{AttackEventModel}
use honeywatch.Collector.Queue.{Reply, carried_out, Queue}
use honeywatch.Tasks.Worker.{
  Commit, stored, refused, Store, classify_event, model_of, process_event,
}
use honeywatch.Tasks.Classify.{call_of}
use honeywatch.Tasks.Worker.Settled.{HasId, Safe}
use honeywatch.Tasks.Worker.Rounds.{on_event, consume-Safe}
use honeywatch.Collector.Served.{marked}
use honeywatch.Tasks.Worker.Outage.{waits, process_event-stored, process_event-again}

abbrev event : AttackEvent
event = record {
  id = 7;
  timestamp = 100;
  source_ip = "8.8.8.8";
  source_port = 4000;
  destination_port = 22;
  protocol = ssh;
  event_type = "ssh_connection";
  raw_data = [];
}

abbrev has_id : ℕ → List AttackEventModel → Bool
has_id id rows = any (λ m. m.id == id) rows

-- a primary key, and an outage during the first two commits
abbrev db : ℕ → AttackEventModel → List AttackEventModel → Commit
db n m rows = if has_id m.id rows then refused else (if ltb n 2 then refused else stored)

has_id-true : (id : ℕ) (rows : List AttackEventModel) → HasId id rows → has_id id rows ≡ true
has_id-true id rows h =
    (any_iff (λ m. m.id == id) rows).1
      (Exists-map (λ m. m.id ≡ id) (λ m. (m.id == id) ≡ true) rows (λ m e. ground arith) h)

key :
    (k : ℕ) (m : AttackEventModel) (rows : List AttackEventModel)
    → HasId m.id rows
    → db k m rows ≡ refused
key k m rows h = rw (has_id-true m.id rows h)

abbrev reply : ℕ → Reply
reply n = carried_out

abbrev queue : Queue AttackEvent
queue = record { connected = true; calls = 0; stream = []; acked = []; slept = 0 }

abbrev store : Store
store = record { rows = []; commits = 0; slept = 0 }

abbrev context : ℕ → Option IpContext
context n = none

-- the first entry holds the event, the second none that can be read
abbrev parse : ℕ → Option AttackEvent
parse n = if n == 1 then some event else none

abbrev fetch : ℕ → Fetch
fetch n = if n == 0 then no_group else entries (1 ∷ 2 ∷ [])

consume-Safe_example :
    Safe parse
      (consume reply fetch parse
        (on_event default_rules context parse reply fetch db)
        3
        (queue, store)).0
consume-Safe_example = consume-Safe default_rules context parse reply fetch db 3 (queue, store) tt

refused_first :
    (j : ℕ)
    → j < 2
    → db (store.commits + j) (model_of event (classify_event default_rules none event)) [] ≡ refused
refused_first j h = ground arith

process_event-stored_example : process_event reply db default_rules none 1 event (queue, store) ≡ (
  marked 1 queue,
  record store {
    rows = [] ++ model_of event (classify_event default_rules none event) ∷ [];
    commits = 0 + 3;
    slept = 0 + waits 0 2;
  },
)
process_event-stored_example =
    process_event-stored reply db default_rules none 1 event 2 queue store (omega arith)
      refused_first refl refl refl

abbrev full : Store
full = record store { rows = model_of event (classify_event default_rules none event) ∷ [] }

process_event-again_example :
    process_event reply db default_rules none 1 event (queue, full)
    ≡ (queue, record full { commits = 0 + 10; slept = 0 + 45 })
process_event-again_example =
    process_event-again reply db default_rules none 1 event key queue full (inl refl)

abbrev earlier_call : Call
earlier_call = call_of event 2000000 executed

abbrev row_at : ℕ → AttackEventModel
row_at t = record (model_of event (classify_event default_rules none event)) { timestamp = t }

-- an empty rules file, whose document is validated as the defaults
abbrev empty_document : ℕ
empty_document = 0

abbrev validate : ℕ → Option DetectionRules
validate raw = some default_rules

-- two events of one address, and an entry that cannot be read
abbrev parse_both : ℕ → Option AttackEvent
parse_both n =
    if n == 1 then some event else (if n == 2 then some (record event { id = 50 }) else none)

abbrev fetch_both : ℕ → Fetch
fetch_both n = if n == 0 then entries (1 ∷ []) else entries (2 ∷ 3 ∷ [])

abbrev both : List (List ℕ)
both = (1 ∷ []) ∷ (2 ∷ 3 ∷ []) ∷ []

abbrev always : ℕ → AttackEventModel → List AttackEventModel → Commit
always k m rows = stored

abbrev instant : ℕ → ℕ
instant n = n * 1000000

abbrev carried : ℕ → Outcome
carried n = executed

different : Nodup (map (λ e. e.id) (events_of parse_both (flatten both)))
different =
    Nodup-cons.1
      (not_mem event.id (50 ∷ []) (omega arith, tt), Nodup-cons.1 (not_mem 50 [] tt, Nodup-nil))

no_row : (id : ℕ) → ¬ HasId id []
no_row id h = h

consume-rows_after_example :
    (w : State AttackEvent (Kept server texts default_rules instant carried)) × (consume reply
        fetch_both parse_both
        (process_stored server texts default_rules instant carried reply always)
        2
        (queue, (store, fresh))
      ≡ (w, goes_on))
    × (w.0.acked ≡ [] ++ 1 ∷ 2 ∷ 3 ∷ [])
    × (w.1.0.rows
        ≡ []
          ++ rows_after server texts default_rules instant carried parse_both (1 ∷ 2 ∷ 3 ∷ []) [])
consume-rows_after_example =
    consume-rows_after server texts default_rules instant carried parse_both fresh
      (λ t k. (refl, refl)) (omega arith) (omega arith) reply (λ n. refl) always
      (λ k m rows h. refl) fetch_both both queue store (refl, (refl, tt)) refl
      (no_row event.id, (no_row 50, tt)) different (tt, ((omega arith, tt), tt))
