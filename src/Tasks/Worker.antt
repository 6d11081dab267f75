-- ===== src/Tasks/Worker.antt =====
-- src/honeywatch/tasks/workers.py: what the worker does with an event that the queue yields. The
-- database is a parameter: `db n m rows` says how the n-th commit ends that adds `m` to a table with
-- these rows, and `rows` holds what it has stored. `slept` adds up the waits in units of the retry
-- delay. Starting and stopping the worker stand in Tasks/Lifecycle.
pub mod Settled
pub mod Rounds
pub mod Outage
pub mod Entries
pub mod Delivery
use honeywatch.Prelude.{
  ℕ, zero, suc, ◌+◌, Bool, true, false, List, [], ◌∷◌, ◌++◌, Option, none, some,
}
use honeywatch.Event.{AttackEvent}
use honeywatch.Detection.Rules.{DetectionRules}
use honeywatch.Detection.Classifier.{
  IpContext, ClassificationResult, attack_suspicious, severity_low, classify,
}
use honeywatch.Db.Models.{AttackEventModel}
use honeywatch.Collector.Queue.{Reply, Result, succeeded, connection_error, other_error, Queue, ack}
use honeywatch.Collector.Consume.{State}

abbrev pub db_max_retries : ℕ
db_max_retries = 10

-- How a commit ends: the row is stored; the session or the commit raises and nothing is stored; or the
-- row is stored and the commit raises all the same.
pub data Commit : Type 0 where
  stored refused unsure : Commit

pub record Store : Type 0 where
  pub rows : List AttackEventModel
  pub commits : ℕ
  pub slept : ℕ

abbrev pub Worker : Type 0
Worker = State AttackEvent Store

-- `_classify_event`; no context means that its `try` raised
unfoldable pub classify_event :
    DetectionRules → Option IpContext → AttackEvent → ClassificationResult
classify_event rules none e = record { attack_type = attack_suspicious; severity = severity_low }
classify_event rules (some c) e = classify rules e c

abbrev pub model_of : AttackEvent → ClassificationResult → AttackEventModel
model_of e c = record {
  id = e.id;
  timestamp = e.timestamp;
  source_ip = e.source_ip;
  source_port = e.source_port;
  destination_port = e.destination_port;
  protocol = e.protocol;
  event_type = e.event_type;
  attack_type = some c.attack_type;
  severity = some c.severity;
  raw_data = e.raw_data;
}

-- the session: the row is added and committed
abbrev pub save : AttackEventModel → Commit → Store → Store × Bool
save m stored s = (record s { commits = s.commits + 1; rows = s.rows ++ m ∷ [] }, true)
save m refused s = (record s { commits = s.commits + 1 }, false)
save m unsure s = (record s { commits = s.commits + 1; rows = s.rows ++ m ∷ [] }, false)

-- did the call return?
abbrev pub returned : Result → Bool
returned succeeded = true
returned connection_error = false
returned other_error = false

module _ (reply : ℕ → Reply) where
  -- the acknowledgement, where the row is saved
  abbrev pub ack_saved : ℕ → Queue AttackEvent → Store × Bool → Worker × Bool
  ack_saved entry_id q (s, false) = ((q, s), false)
  ack_saved entry_id q (s, true) =
      (((ack reply entry_id q).0, s), returned (ack reply entry_id q).1)

-- what follows a try, with the tries that are left
abbrev pub retry : (Worker → Worker) → ℕ → ℕ → Worker × Bool → Worker
retry again attempt left (w, true) = w
retry again attempt zero (w, false) = w
retry again attempt (suc left) ((q, s), false) =
    again (q, record s { slept = s.slept + (attempt + 1) })

module _ (reply : ℕ → Reply) (db : ℕ → AttackEventModel → List AttackEventModel → Commit) where
  -- the `try` of `_process_event`
  unfoldable pub try_save : ℕ → AttackEventModel → Worker → Worker × Bool
  try_save entry_id m (q, s) = ack_saved reply entry_id q (save m (db s.commits m s.rows) s)

  -- the loop of `_process_event`
  unfoldable pub process_from : ℕ → AttackEventModel → ℕ → ℕ → Worker → Worker
  process_from entry_id m zero attempt w = w
  process_from entry_id m (suc left) attempt w =
      retry (process_from entry_id m left (attempt + 1)) attempt left (try_save entry_id m w)

  unfoldable pub process_event :
      DetectionRules → Option IpContext → ℕ → AttackEvent → Worker → Worker
  process_event rules context entry_id e w =
      process_from entry_id (model_of e (classify_event rules context e)) db_max_retries 0 w
