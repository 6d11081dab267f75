-- ===== src/Detection/Backfill.antt =====
-- src/honeywatch/detection/backfill.py: the classification of the rows that have none yet, in the
-- order of their time and with a context that is built up in memory. A write is an UPDATE of the row
-- with an id; `pending` holds the writes since the last commit. A write or commit that fails ends the
-- run, which leaves what `process_all` has committed of the rows before.
pub mod Writes
pub mod Table
use honeywatch.Prelude.{
  ℕ, suc, ◌+◌, ◌%◌, String, Bool, true, false, List, [], ◌∷◌, ◌++◌, Option, none, some, ◌==◌,
  str_eq, filter, if◌then◌else◌,
}
use honeywatch.Prelude.Groups.{contains}
use honeywatch.Event.{AttackEvent}
use honeywatch.Detection.Rules.{DetectionRules}
use honeywatch.Detection.Classifier.{IpContext, ClassificationResult, classify}
use honeywatch.Db.Models.{AttackEventModel}
use honeywatch.Db.Query.{OrderBy}

abbrev pub batch_size : ℕ
batch_size = 500

-- a `defaultdict` is the function of its values
pub record IpContextBuilder : Type 0 where
  pub attempts : String → ℕ
  pub ports : String → List ℕ

-- `_IPContextBuilder.__init__`
abbrev pub empty_builder : IpContextBuilder
empty_builder = record { attempts = λ _. 0; ports = λ _. [] }

abbrev pub same_port : ℕ → ℕ → Bool
same_port a b = a == b

-- `set.add`
abbrev pub add_port : ℕ → List ℕ → List ℕ
add_port port ports = if contains same_port port ports then ports else port ∷ ports

unfoldable pub update_and_get : String → ℕ → IpContextBuilder → IpContextBuilder × IpContext
update_and_get source_ip destination_port b =
    let attempts = b.attempts source_ip + 1 in
    let ports = add_port destination_port (b.ports source_ip) in
    (
      record {
        attempts = λ ip. if str_eq ip source_ip then attempts else b.attempts ip;
        ports = λ ip. if str_eq ip source_ip then ports else b.ports ip;
      },
      record { recent_attempts = attempts; distinct_ports = ports },
    )

-- `AttackEvent(...)` of a row
abbrev pub event_of : AttackEventModel → AttackEvent
event_of m = record {
  id = m.id;
  timestamp = m.timestamp;
  source_ip = m.source_ip;
  source_port = m.source_port;
  destination_port = m.destination_port;
  protocol = m.protocol;
  event_type = m.event_type;
  raw_data = m.raw_data;
}

abbrev pub Write : Type 0
Write = ℕ × ClassificationResult

pub record Progress : Type 0 where
  pub builder : IpContextBuilder
  pub pending : List Write
  pub committed : List Write
  pub total_processed : ℕ

-- `session.commit()`
abbrev pub commit : Progress → Progress
commit p = record p { pending = []; committed = p.committed ++ p.pending }

-- `if total_processed % BATCH_SIZE == 0`
abbrev pub commit_batch : Progress → Progress
commit_batch p = if p.total_processed % batch_size == 0 then commit p else p

abbrev pub unclassified : AttackEventModel → Bool
unclassified m = elim m.attack_type [ none ↦ true | some _ ↦ false ]

module _ (rules : DetectionRules) where
  -- the classification of a row in its context
  abbrev pub write_of : AttackEventModel → IpContext → Write
  write_of m c = (m.id, classify rules (event_of m) c)

  -- a round of the loop before its commit
  abbrev pub process : AttackEventModel → Progress → Progress
  process m p =
      let (b, c) = update_and_get m.source_ip m.destination_port p.builder in
      record p {
        builder = b;
        pending = p.pending ++ write_of m c ∷ [];
        total_processed = p.total_processed + 1;
      }

  unfoldable pub process_all : List AttackEventModel → Progress → Progress
  process_all [] p = p
  process_all (m ∷ l) p = process_all l (commit_batch (process m p))

  -- what a whole run has committed
  unfoldable pub backfill : OrderBy → List AttackEventModel → List Write
  backfill order rows =
      let events = order.asc (λ m. m.timestamp) (filter unclassified rows) in
      (commit (
        process_all events (record {
          builder = empty_builder;
          pending = [];
          committed = [];
          total_processed = 0;
        }))).committed
